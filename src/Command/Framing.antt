-- ===== src/Command/Framing.antt =====
-- Every command writes exactly one complete reply.
use redka.Base.{
  ℕ, suc, ◌+◌, ◌*◌, ℤ, pos, String, Bool, true, false, List, [], ◌∷◌, some, ◌≡◌, refl, arith,
  length, if◌then◌else◌, Bool-cases, inl, inr, ap, ◌∙◌, map, lookup,
}
use redka.Core.{
  not_found, key_type, value_type, not_allowed, sql, Result, ok, err, Time, Value, exists,
  key_exists,
}
use redka.Schema.{Db, HashRow}
use redka.Reply.{Reply, string_reply, bulk, int_reply, array, null}
use redka.Reply.Framing.{pending, IsOneReply, suc_add}
use redka.Command.{
  Op, Cmd, cmd_ok, cmd_unknown, cmd_flush_db, cmd_random_key, cmd_echo, cmd_del, cmd_exists,
  cmd_m_get, cmd_expire, cmd_expire_at, cmd_keys, cmd_persist, cmd_get, cmd_h_get_all, cmd_h_keys,
  cmd_h_len, cmd_h_vals, cmd_rename, cmd_rename_nx, cmd_get_set, cmd_set_nx, cmd_h_exists,
  cmd_h_get, cmd_scan, cmd_h_scan, cmd_incr, cmd_incr_by_float, cmd_m_set, cmd_m_set_nx, cmd_set,
  cmd_set_ex, cmd_h_del, cmd_h_m_get, cmd_h_incr_by, cmd_h_incr_by_float, cmd_h_set, cmd_h_m_set,
  cmd_h_set_nx,
}
use redka.Command.Respond.{Env, respond, value_reply, nil_default, bulks, picked, pairs}
use redka.Command.Run.{run_op, run}
use redka.Command.Run.Keys.{
  run_ok, run_unknown, run_flush_db, run_random_key, run_echo, run_del, run_exists, run_expire,
  run_expire_at, run_keys, run_persist, run_rename, run_rename_nx, run_scan,
}
use redka.Command.Run.Strings.{
  run_m_get, run_get, run_get_set, run_set_nx, run_incr, run_incr_by_float, run_m_set, run_m_set_nx,
  run_set, run_set_ex,
}
use redka.Command.Run.Hashes.{
  or_missing, run_h_get_all, run_h_keys, run_h_len, run_h_vals, run_h_exists, run_h_get, run_h_scan,
  run_h_del, run_h_m_get, run_h_incr_by, run_h_incr_by_float, run_h_set, run_h_m_set, run_h_set_nx,
}
use redka.Rkey
use redka.Rhash
use redka.Rhash.{item}
use redka.Rstring

respond-IsOneReply :
    {A : Type 0} (name : String) (replies : A → List Reply) (r : Result A × Db)
    → ((a : A) → IsOneReply (replies a))
    → IsOneReply (respond name replies r).0
unfolding respond pending
respond-IsOneReply name replies (ok a, db) h = h a
respond-IsOneReply name replies (err e, db) h = refl

bulks-pending :
    {A : Type 0} (text : A → String) (xs : List A) (n : ℕ)
    → pending (length xs + n) (bulks text xs) ≡ some n
unfolding pending bulks
bulks-pending text [] n = ap some (omega arith)
bulks-pending text (x ∷ xs) n =
    ap (λ i. pending i (bulks text (x ∷ xs))) (suc_add (length xs) n) ∙ bulks-pending text xs n

value_reply-pending :
    (v : Value) (n : ℕ) (rs : List Reply) → pending (suc n) (value_reply v ∷ rs) ≡ pending n rs
unfolding pending
value_reply-pending v n rs = elim (Bool-cases (exists v)) [
  | inl some_bytes ↦ rw some_bytes
  | inr empty ↦ rw empty
]

picked-pending :
    (names : List String) (items : List (String × Value)) (n : ℕ)
    → pending (length names + n) (picked names items) ≡ some n
unfolding pending picked
picked-pending [] items n = ap some (omega arith)
picked-pending (x ∷ names) items n =
    ap (λ i. pending i (picked (x ∷ names) items)) (suc_add (length names) n)
    ∙ value_reply-pending (nil_default (lookup x items)) (length names + n) (picked names items)
    ∙ picked-pending names items n

twice : (m n : ℕ) → suc m * 2 + n ≡ suc (suc (m * 2 + n))
twice m n = omega arith

pairs-pending :
    (items : List (String × Value)) (n : ℕ) → pending (length items * 2 + n) (pairs items) ≡ some n
unfolding pending pairs
pairs-pending [] n = ap some (omega arith)
pairs-pending ((f, v) ∷ items) n =
    ap (λ i. pending i (pairs ((f, v) ∷ items))) (twice (length items) n) ∙ pairs-pending items n

map-pending :
    (hs : List HashRow) (n : ℕ) → pending (length hs * 2 + n) (pairs (map item hs)) ≡ some n
unfolding pending pairs
map-pending [] n = ap some (omega arith)
map-pending (h ∷ hs) n =
    ap (λ i. pending i (pairs (map item (h ∷ hs)))) (twice (length hs) n) ∙ map-pending hs n

missing-IsOneReply : (name : String) (r : Result Value × Db) → IsOneReply (or_missing name r).0
unfolding pending
missing-IsOneReply name (ok v, db) = refl
missing-IsOneReply name (err not_found, db) = refl
missing-IsOneReply name (err key_type, db) = refl
missing-IsOneReply name (err value_type, db) = refl
missing-IsOneReply name (err not_allowed, db) = refl
missing-IsOneReply name (err (sql s), db) = refl

either-IsOneReply :
    (b : Bool) (x y : Reply)
    → IsOneReply (x ∷ [])
    → IsOneReply (y ∷ [])
    → IsOneReply ((if b then x else y) ∷ [])
either-IsOneReply true x y hx hy = hx
either-IsOneReply false x y hx hy = hy

int-IsOneReply : (i : ℤ) → IsOneReply (int_reply i ∷ [])
unfolding pending
int-IsOneReply i = refl

string-IsOneReply : (t : String) → IsOneReply (string_reply t ∷ [])
unfolding pending
string-IsOneReply t = refl

bulk-IsOneReply : (t : String) → IsOneReply (bulk t ∷ [])
unfolding pending
bulk-IsOneReply t = refl

null-IsOneReply : IsOneReply (null ∷ [])
unfolding pending
null-IsOneReply = refl

value-IsOneReply : (v : Value) → IsOneReply (value_reply v ∷ [])
value-IsOneReply v = either-IsOneReply (exists v) (bulk v) null (bulk-IsOneReply v) null-IsOneReply

-- an array whose elements follow
array-IsOneReply :
    (n : ℕ) (rs : List Reply) → ((m : ℕ) → pending (n + m) rs ≡ some m) → IsOneReply (array n ∷ rs)
unfolding pending
array-IsOneReply n rs h = h 0

-- the reply of SCAN and HSCAN: the cursor and an array
cursor-IsOneReply :
    (i : ℤ) (n : ℕ) (rs : List Reply)
    → ((m : ℕ) → pending (n + m) rs ≡ some m)
    → IsOneReply (array 2 ∷ int_reply i ∷ array n ∷ rs)
unfolding pending
cursor-IsOneReply i n rs h = h 0

module _ (e : Env) (choice : ℕ) (name : String) (clock : ℕ → Time) (db : Db) where
  run_op-IsOneReply : (op : Op) → IsOneReply (run_op e choice name op clock db).0
  unfolding run_op pending run_ok run_unknown run_flush_db run_random_key run_echo run_del
      run_exists run_m_get run_expire run_expire_at run_keys run_persist run_get run_h_get_all
      run_h_keys run_h_len run_h_vals run_rename run_rename_nx run_get_set run_set_nx run_h_exists
      run_h_get run_scan run_h_scan run_incr run_incr_by_float run_m_set run_m_set_nx run_set
      run_set_ex run_h_del run_h_m_get run_h_incr_by run_h_incr_by_float run_h_set run_h_m_set
      run_h_set_nx
  run_op-IsOneReply cmd_ok = refl
  run_op-IsOneReply cmd_unknown = refl
  run_op-IsOneReply cmd_flush_db = respond-IsOneReply name _ _ (λ x. string-IsOneReply "OK")
  run_op-IsOneReply cmd_random_key =
      either-IsOneReply (key_exists (Rkey.random choice (clock 0) db))
        (bulk (Rkey.random choice (clock 0) db).key) null
        (bulk-IsOneReply (Rkey.random choice (clock 0) db).key) null-IsOneReply
  run_op-IsOneReply (cmd_echo a) = refl
  run_op-IsOneReply (cmd_del a) = respond-IsOneReply name _ _ (λ x. int-IsOneReply (pos x))
  run_op-IsOneReply (cmd_exists a) = int-IsOneReply (pos (Rkey.count a (clock 0) db))
  run_op-IsOneReply (cmd_m_get a) = array-IsOneReply _ _ (picked-pending _ _)
  run_op-IsOneReply (cmd_expire a b) =
      respond-IsOneReply name _ _ (λ x. int-IsOneReply (if x then pos 1 else pos 0))
  run_op-IsOneReply (cmd_expire_at a b) =
      respond-IsOneReply name _ _ (λ x. int-IsOneReply (if x then pos 1 else pos 0))
  run_op-IsOneReply (cmd_keys a) = array-IsOneReply _ _ (bulks-pending _ _)
  run_op-IsOneReply (cmd_persist a) =
      respond-IsOneReply name _ _ (λ x. int-IsOneReply (if x then pos 1 else pos 0))
  run_op-IsOneReply (cmd_get a) = value-IsOneReply (Rstring.get a (clock 0) db)
  run_op-IsOneReply (cmd_h_get_all a) = array-IsOneReply _ _ (pairs-pending _)
  run_op-IsOneReply (cmd_h_keys a) = array-IsOneReply _ _ (bulks-pending _ _)
  run_op-IsOneReply (cmd_h_len a) = int-IsOneReply (pos (Rhash.len a (clock 0) db))
  run_op-IsOneReply (cmd_h_vals a) = array-IsOneReply _ _ (bulks-pending _ _)
  run_op-IsOneReply (cmd_rename a b) = respond-IsOneReply name _ _ (λ x. string-IsOneReply "OK")
  run_op-IsOneReply (cmd_rename_nx a b) =
      respond-IsOneReply name _ _ (λ x. int-IsOneReply (if x then pos 1 else pos 0))
  run_op-IsOneReply (cmd_get_set a b) = respond-IsOneReply name _ _ (λ x. value-IsOneReply x)
  run_op-IsOneReply (cmd_set_nx a b) =
      respond-IsOneReply name _ _ (λ x. int-IsOneReply (if x then pos 1 else pos 0))
  run_op-IsOneReply (cmd_h_exists a b) =
      int-IsOneReply (if Rhash.exists a b (clock 0) db then pos 1 else pos 0)
  run_op-IsOneReply (cmd_h_get a b) = missing-IsOneReply name _
  run_op-IsOneReply (cmd_scan a) =
      cursor-IsOneReply (pos (Rkey.scan e.driver a.cursor a.match_ a.count (clock 0) db).cursor) _ _
        (bulks-pending _ _)
  run_op-IsOneReply (cmd_h_scan a b) =
      cursor-IsOneReply (pos (Rhash.scan e.driver a b.cursor b.match_ b.count (clock 0) db).cursor)
        _ _ (map-pending _)
  run_op-IsOneReply (cmd_incr a b) = respond-IsOneReply name _ _ (λ x. int-IsOneReply x)
  run_op-IsOneReply (cmd_incr_by_float a b) =
      respond-IsOneReply name _ _ (λ x. bulk-IsOneReply (e.driver.format_float x))
  run_op-IsOneReply (cmd_m_set a) = respond-IsOneReply name _ _ (λ x. string-IsOneReply "OK")
  run_op-IsOneReply (cmd_m_set_nx a) =
      respond-IsOneReply name _ _ (λ x. int-IsOneReply (if x then pos 1 else pos 0))
  run_op-IsOneReply (cmd_set a b c) =
      respond-IsOneReply name _ _
        (λ x. either-IsOneReply x (string_reply "OK") null (string-IsOneReply "OK") null-IsOneReply)
  run_op-IsOneReply (cmd_set_ex a b c) = respond-IsOneReply name _ _ (λ x. string-IsOneReply "OK")
  run_op-IsOneReply (cmd_h_del a b) = respond-IsOneReply name _ _ (λ x. int-IsOneReply (pos x))
  run_op-IsOneReply (cmd_h_m_get a b) = array-IsOneReply _ _ (picked-pending _ _)
  run_op-IsOneReply (cmd_h_incr_by a b c) = respond-IsOneReply name _ _ (λ x. int-IsOneReply x)
  run_op-IsOneReply (cmd_h_incr_by_float a b c) =
      respond-IsOneReply name _ _ (λ x. bulk-IsOneReply (e.driver.format_float x))
  run_op-IsOneReply (cmd_h_set a b) = respond-IsOneReply name _ _ (λ x. int-IsOneReply (pos x))
  run_op-IsOneReply (cmd_h_m_set a b) = respond-IsOneReply name _ _ (λ x. string-IsOneReply "OK")
  run_op-IsOneReply (cmd_h_set_nx a b c) =
      respond-IsOneReply name _ _ (λ x. int-IsOneReply (if x then pos 1 else pos 0))

-- Every command, whatever its arguments, the tables and the outcome, writes one complete reply: an
-- array header is followed by as many replies as it announces, and nothing else follows.
pub run-IsOneReply :
    (e : Env) (choice : ℕ) (cmd : Cmd) (clock : ℕ → Time) (db : Db)
    → IsOneReply (run e choice cmd clock db).0
unfolding run
run-IsOneReply e choice cmd clock db = run_op-IsOneReply e choice cmd.name clock db cmd.op
