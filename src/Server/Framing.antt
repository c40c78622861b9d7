-- ===== src/Server/Framing.antt =====
-- The framing of the reply to EXEC, for commands that each write one complete reply.
use redka.Base.{
  ℕ, suc, ◌+◌, true, false, none, some, List, [], ◌∷◌, ◌++◌, ◌≡◌, refl, arith, length,
  length-append, ap, ◌∙◌, sym,
}
use mathlib.Core.List.{append-nil}
use redka.Core.{Error, Result, ok, err, Time}
use redka.Schema.{Db}
use redka.Reply.{Reply, array}
use redka.Reply.Framing.{pending, IsOneReply, pending-append, suc_add}
use redka.Server.{Commands, Outside, run_all, after_run, handle_multi}
use redka.Server.Batch.{is_ok, failed_batch}

-- more replies may be waited for behind the ones that came
pending_more : (n m : ℕ) (rs : List Reply) → pending n rs ≡ some 0 → pending (n + m) rs ≡ some m
unfolding pending
pending_more n m rs h =
    ap (pending (n + m)) (sym (append-nil rs))
    ∙ pending-append n m 0 rs [] h
    ∙ ap some (omega arith)

after_one : (n : ℕ) (rs ss : List Reply) → IsOneReply rs → pending (suc n) (rs ++ ss) ≡ pending n ss
after_one n rs ss h =
    ap (λ i. pending i (rs ++ ss)) (omega arith)
    ∙ pending-append 1 n 0 rs ss h
    ∙ ap (λ i. pending i ss) (omega arith)

module _ (c : Commands) where
  open c use {Request, Cmd, norm_name, parse_request, run_tx, run_db}

  -- every run in a transaction writes one complete reply
  abbrev pub WritesOne : Type 0
  WritesOne = (cmd : Cmd) (clock : ℕ → Time) (db : Db) → IsOneReply (run_tx cmd clock db).0

  module _ (one : WritesOne) where
    first_ok :
        (r : List Reply × Result Unit × Db) (f : Db → List Reply × Result Unit × Db) (n k : ℕ)
        → IsOneReply r.0
        → is_ok (after_run c r f).1 ≡ true
        → ((db : Db) → is_ok (f db).1 ≡ true → pending n (f db).0 ≡ some k)
        → pending (suc n) (after_run c r f).0 ≡ some k
    first_ok (out, ok u, db) f n k h good rest = after_one n out (f db).0 h ∙ rest db good
    first_ok (out, err e, db) f n k h good rest = cc

    all_replies :
        (cmds : List Cmd) (clocks : ℕ → ℕ → Time) (db : Db)
        → is_ok (run_all c cmds clocks db).1 ≡ true
        → pending (length cmds) (run_all c cmds clocks db).0 ≡ some 0
    unfolding run_all pending
    all_replies [] clocks db good = refl
    all_replies (cmd ∷ cmds) clocks db good =
        first_ok (run_tx cmd (clocks 0) db) (run_all c cmds (λ i. clocks (suc i))) (length cmds) 0
          (one cmd (clocks 0) db) good (λ db' h. all_replies cmds (λ i. clocks (suc i)) db' h)

    last_failed :
        (r : List Reply × Result Unit × Db) (m : ℕ)
        → IsOneReply r.0
        → is_ok (after_run c r (λ db. ([], ok tt, db))).1 ≡ false
        → pending (suc m) (after_run c r (λ db. ([], ok tt, db))).0 ≡ some m
    last_failed (out, ok u, db) m h bad = cc
    last_failed (out, err e, db) m h bad =
        ap (λ i. pending i out) (omega arith) ∙ pending_more 1 m out h

    step_failed :
        (r : List Reply × Result Unit × Db) (f g : Db → List Reply × Result Unit × Db) (n k : ℕ)
        → IsOneReply r.0
        → is_ok (after_run c r g).1 ≡ true
        → is_ok (after_run c r f).1 ≡ false
        → ((db : Db) → is_ok (g db).1 ≡ true → is_ok (f db).1 ≡ false → pending n (f db).0 ≡ some k)
        → pending (suc n) (after_run c r f).0 ≡ some k
    step_failed (out, ok u, db) f g n k h good bad rest =
        after_one n out (f db).0 h ∙ rest db good bad
    step_failed (out, err e, db) f g n k h good bad rest = cc

    failed_replies :
        (cs : List Cmd) (bad : Cmd) (m : ℕ) (clocks : ℕ → ℕ → Time) (db : Db)
        → is_ok (run_all c cs clocks db).1 ≡ true
        → is_ok (run_all c (cs ++ bad ∷ []) clocks db).1 ≡ false
        → pending (length cs + suc m) (run_all c (cs ++ bad ∷ []) clocks db).0 ≡ some m
    unfolding run_all
    failed_replies [] bad m clocks db good failed =
        ap (λ i. pending i (run_all c (bad ∷ []) clocks db).0) (omega arith)
        ∙ last_failed (run_tx bad (clocks 0) db) m (one bad (clocks 0) db) failed
    failed_replies (x ∷ cs) bad m clocks db good failed =
        ap (λ i. pending i (run_all c (x ∷ cs ++ bad ∷ []) clocks db).0)
          (suc_add (length cs) (suc m))
        ∙ step_failed (run_tx x (clocks 0) db) (run_all c (cs ++ bad ∷ []) (λ i. clocks (suc i)))
            (run_all c cs (λ i. clocks (suc i))) (length cs + suc m) m (one x (clocks 0) db) good
            failed (λ db' g b. failed_replies cs bad m (λ i. clocks (suc i)) db' g b)

    -- For commands that each write one complete reply: where the transaction begins and every
    -- command succeeds, what EXEC writes is one complete reply, the array of their replies.
    pub exec-IsOneReply :
        (cmds : List Cmd) (o : Outside) (db : Db)
        → o.tx.begin ≡ none
        → is_ok (run_all c cmds o.clocks db).1 ≡ true
        → IsOneReply (array (length cmds) ∷ (handle_multi c cmds o db).0)
    unfolding pending handle_multi
    exec-IsOneReply cmds o db began good = rw began (
        ap (λ n. pending n (run_all c cmds o.clocks db).0) (omega arith)
        ∙ all_replies cmds o.clocks db good)

    -- For commands that each write one complete reply: where the transaction begins, the commands
    -- before some command succeed and that one fails, the client gets the array header and then
    -- waits in vain for one reply for each command behind the failed one.
    pub exec_failed-pending :
        (cs : List Cmd) (bad : Cmd) (rest : List Cmd) (o : Outside) (db : Db) (e : Error)
        → o.tx.begin ≡ none
        → is_ok (run_all c cs o.clocks db).1 ≡ true
        → (run_all c (cs ++ bad ∷ []) o.clocks db).1 ≡ err e
        → pending 1 (array (length (cs ++ bad ∷ rest)) ∷ (handle_multi c (cs ++ bad ∷ rest) o db).0)
          ≡ some (length rest)
    unfolding pending
    exec_failed-pending cs bad rest o db e began good failed =
        ap (λ (r : List Reply × Db). pending (length (cs ++ bad ∷ rest) + 0) r.0)
          (failed_batch c cs bad rest o db e began failed)
        ∙ ap (λ i. pending i (run_all c (cs ++ bad ∷ []) o.clocks db).0)
            (omega (arith, length-append cs (bad ∷ rest)))
        ∙ failed_replies cs bad (length rest) o.clocks db good (ap is_ok failed)
