-- ===== src/Reply/Framing.antt =====
-- The framing of RESP: an array header announces as many replies, which follow it.
use redka.Base.{ℕ, zero, suc, ◌+◌, Option, none, some, List, [], ◌∷◌, ◌++◌, ◌≡◌, arith, ap, ◌∙◌}
use redka.Reply.{Reply, error_reply, string_reply, bulk, any_reply, int_reply, array, null}

-- How many replies the client still waits for, if it waits for `n` before the calls; `none` if it
-- gets one that it does not wait for.
unfoldable pub pending : ℕ → List Reply → Option ℕ
pending n [] = some n
pending zero (r ∷ rs) = none
pending (suc n) (array k ∷ rs) = pending (k + n) rs
pending (suc n) (error_reply s ∷ rs) = pending n rs
pending (suc n) (string_reply s ∷ rs) = pending n rs
pending (suc n) (bulk s ∷ rs) = pending n rs
pending (suc n) (any_reply s ∷ rs) = pending n rs
pending (suc n) (int_reply i ∷ rs) = pending n rs
pending (suc n) (null ∷ rs) = pending n rs

-- the calls make one complete reply
abbrev pub IsOneReply : List Reply → Type 0
IsOneReply rs = pending 1 rs ≡ some 0

pub suc_add : (n m : ℕ) → suc n + m ≡ suc (n + m)
suc_add n m = omega arith

-- A client that waits for `m` replies more still waits for them afterwards.
pub pending-append :
    (n m k : ℕ) (rs ss : List Reply)
    → pending n rs ≡ some k
    → pending (n + m) (rs ++ ss) ≡ pending (k + m) ss
unfolding pending
pending-append n m k [] ss h = ground arith
pending-append zero m k (r ∷ rs) ss h = ground arith
pending-append (suc n) m k (array j ∷ rs) ss h =
    ap (λ i. pending i (array j ∷ (rs ++ ss))) (suc_add n m)
    ∙ ap (λ i. pending i (rs ++ ss)) (omega arith)
    ∙ pending-append (j + n) m k rs ss h
pending-append (suc n) m k (error_reply s ∷ rs) ss h =
    ap (λ i. pending i (error_reply s ∷ (rs ++ ss))) (suc_add n m) ∙ pending-append n m k rs ss h
pending-append (suc n) m k (string_reply s ∷ rs) ss h =
    ap (λ i. pending i (string_reply s ∷ (rs ++ ss))) (suc_add n m) ∙ pending-append n m k rs ss h
pending-append (suc n) m k (bulk s ∷ rs) ss h =
    ap (λ i. pending i (bulk s ∷ (rs ++ ss))) (suc_add n m) ∙ pending-append n m k rs ss h
pending-append (suc n) m k (any_reply s ∷ rs) ss h =
    ap (λ i. pending i (any_reply s ∷ (rs ++ ss))) (suc_add n m) ∙ pending-append n m k rs ss h
pending-append (suc n) m k (int_reply z ∷ rs) ss h =
    ap (λ i. pending i (int_reply z ∷ (rs ++ ss))) (suc_add n m) ∙ pending-append n m k rs ss h
pending-append (suc n) m k (null ∷ rs) ss h =
    ap (λ i. pending i (null ∷ (rs ++ ss))) (suc_add n m) ∙ pending-append n m k rs ss h
