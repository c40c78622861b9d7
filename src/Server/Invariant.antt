-- ===== src/Server/Invariant.antt =====
-- The requests of a connection keep the tables valid, for commands that do.
use mathlib.Core.Option
use redka.Base.{ℕ, suc, Bool, true, false, Option, none, some, List, [], ◌∷◌, ◌++◌, if◌then◌else◌}
use redka.Core.{Error, Result, ok, err, Time}
use redka.Schema.{Db}
use redka.Schema.Valid.{IsValid}
use redka.Sqlx.{exec_tx, TxOutcome}
use redka.Sqlx.Keeps.{exec_tx-Keeps}
use redka.Reply.{Reply}
use redka.Server.{
  Commands, ConnState, Served, Outside, Parsed, parsed, refused, last?, handle, handle_multi,
  handle_single, run_all, after_run, multi, serve, serve_all, and_then, dispatch, then_leave,
  cleared,
}

module _ (c : Commands) where
  open c use {Request, Cmd, norm_name, parse_request, run_tx, run_db}

  -- every run, in a transaction or on its own, keeps the tables valid
  pub record RunsKeep : Type 0 where
    pub in_tx :
        (cmd : Cmd) (clock : ℕ → Time) (db : Db) → IsValid db → IsValid (run_tx cmd clock db).2
    pub alone :
        (o : TxOutcome) (cmd : Cmd) (clock : ℕ → Time) (db : Db)
        → IsValid db
        → IsValid (run_db o cmd clock db).2

  -- where there is an outcome, its tables are valid
  unfoldable pub LeftValid : Option (List Reply × Served Cmd) → Type 0
  LeftValid none = Unit
  LeftValid (some (out, s)) = IsValid s.db

  left : (out : List Reply) (s : Served Cmd) → IsValid s.db → LeftValid (some (out, s))
  unfolding LeftValid
  left out s w = w

  if-LeftValid :
      (b : Bool) (x y : Option (List Reply × Served Cmd))
      → LeftValid x
      → LeftValid y
      → LeftValid (if b then x else y)
  if-LeftValid true x y hx hy = hx
  if-LeftValid false x y hx hy = hy

  module _ (keep : RunsKeep) where
    after_run-IsValid :
        (r : List Reply × Result Unit × Db) (f : Db → List Reply × Result Unit × Db)
        → IsValid r.2
        → ((db : Db) → IsValid db → IsValid (f db).2)
        → IsValid (after_run c r f).2
    after_run-IsValid (out, ok u, db) f w h = h db w
    after_run-IsValid (out, err e, db) f w h = w

    run_all-IsValid :
        (cmds : List Cmd) (clocks : ℕ → ℕ → Time) (db : Db)
        → IsValid db
        → IsValid (run_all c cmds clocks db).2
    unfolding run_all
    run_all-IsValid [] clocks db w = w
    run_all-IsValid (cmd ∷ cmds) clocks db w =
        after_run-IsValid (run_tx cmd (clocks 0) db) _ (keep.in_tx cmd (clocks 0) db w)
          (λ db' w'. run_all-IsValid cmds (λ i. clocks (suc i)) db' w')

    handle_multi-IsValid :
        (cmds : List Cmd) (o : Outside) (db : Db)
        → IsValid db
        → IsValid (handle_multi c cmds o db).1
    unfolding handle_multi
    handle_multi-IsValid cmds o db w = began o.tx.begin
      where
        began :
            (b : Option Error)
            → IsValid
                (elim b as (λ _. List Reply × Db) [
                  | some e ↦ ([], db)
                  | none ↦
                      let (out, r, db') = run_all c cmds o.clocks db in
                      (out, (exec_tx o.tx (λ _. (r, db')) db).1)
                ]).1
        began (some e) = w
        began none =
            let (out, r, db') = run_all c cmds o.clocks db in
            exec_tx-Keeps o.tx (λ _. (r, db')) (λ _ _. run_all-IsValid cmds o.clocks db w) db w

    single-LeftValid :
        (conn : ConnState Cmd) (cmd : Option Cmd) (o : Outside) (db : Db)
        → IsValid db
        → LeftValid (Option.map (cleared c conn) (handle_single c cmd o db))
    unfolding LeftValid
    single-LeftValid conn none o db w = tt
    single-LeftValid conn (some cmd) o db w = keep.alone o.tx cmd (o.clocks 0) db w

    handle-LeftValid : (o : Outside) (s : Served Cmd) → IsValid s.db → LeftValid (handle c o s)
    unfolding handle
    handle-LeftValid o s w =
        if-LeftValid s.conn.in_multi _ _ (left _ _ (handle_multi-IsValid s.conn.cmds o s.db w))
          (single-LeftValid s.conn (last? s.conn.cmds) o s.db w)

    leave-LeftValid :
        (header : List Reply) (r : Option (List Reply × Served Cmd))
        → LeftValid r
        → LeftValid (then_leave c header r)
    unfolding LeftValid
    leave-LeftValid header none w = tt
    leave-LeftValid header (some (out, s)) w = w

    multi-LeftValid :
        (q : Request) (o : Outside) (s : Served Cmd) → IsValid s.db → LeftValid (multi c q o s)
    unfolding multi
    multi-LeftValid q o s w = search (if-LeftValid, left, leave-LeftValid, handle-LeftValid)

    dispatch-LeftValid :
        (p : Parsed Cmd) (q : Request) (o : Outside) (s : Served Cmd)
        → IsValid s.db
        → LeftValid (dispatch c p q o s)
    dispatch-LeftValid (refused text) q o s w = left _ s w
    dispatch-LeftValid (parsed cmd) q o s w = multi-LeftValid q o _ w

    pub serve-LeftValid :
        (q : Request) (o : Outside) (s : Served Cmd) → IsValid s.db → LeftValid (serve c q o s)
    unfolding serve
    serve-LeftValid q o s w = dispatch-LeftValid (parse_request q) q o s w

    then-LeftValid :
        (r : Option (List Reply × Served Cmd))
        (next : Served Cmd → Option (List Reply × Served Cmd))
        → LeftValid r
        → ((s : Served Cmd) → IsValid s.db → LeftValid (next s))
        → LeftValid (and_then c r next)
    unfolding LeftValid
    then-LeftValid none next w h = tt
    then-LeftValid (some (out, s)) next w h = mapped (next s) (h s w)
      where
        mapped :
            (r : Option (List Reply × Served Cmd))
            → LeftValid r
            → LeftValid (Option.map (λ (x : List Reply × Served Cmd). (out ++ x.0, x.1)) r)
        mapped none w' = tt
        mapped (some x) w' = w'

    pub serve_all-LeftValid :
        (qs : List (Request × Outside)) (s : Served Cmd)
        → IsValid s.db
        → LeftValid (serve_all c qs s)
    unfolding serve_all
    serve_all-LeftValid [] s w = left _ s w
    serve_all-LeftValid ((q, o) ∷ qs) s w =
        then-LeftValid (serve c q o s) (serve_all c qs) (serve-LeftValid q o s w)
          (λ s' w'. serve_all-LeftValid qs s' w')
