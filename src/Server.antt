-- ===== src/Server.antt =====
-- internal/server: the state of a connection (state.go) and the handlers (handlers.go). The
-- commands are an interface: what `command.Parse` and `Cmd.Run` give.
pub mod Idle
pub mod Batch
pub mod Framing
pub mod Invariant
mod Tests
use mathlib.Core.Option
use redka.Base.{
  ℕ, zero, suc, String, Bool, true, false, Option, none, some, List, [], ◌∷◌, ◌++◌, length, str_eq,
  if◌then◌else◌,
}
use redka.Core.{Error, Result, ok, err, Time}
use redka.Schema.{Db}
use redka.Sqlx.{Action, TxOutcome, exec_tx}
use redka.Reply.{Reply, error_reply, string_reply, array}

-- The outcome of `command.Parse`: a command, or the text that is written for its error.
pub data Parsed (Cmd : Type 0) : Type 0 where
  parsed : Cmd → Parsed Cmd
  refused : String → Parsed Cmd

-- What the server uses of the package `command`: `norm_name` is `strings.ToLower` of the first
-- argument, `run_tx` and `run_db` are `Run` with `RedkaTx` and with `RedkaDB`, the latter given the
-- answers of the driver to a transaction of its own. A run reads the clock as often as it needs, and
-- returns what it writes, its error and the tables.
pub record Commands : Type 1 where
  pub Request : Type 0
  pub Cmd : Type 0
  pub norm_name : Request → String
  pub parse_request : Request → Parsed Cmd
  pub run_tx : Cmd → (ℕ → Time) → Db → List Reply × Result Unit × Db
  pub run_db : TxOutcome → Cmd → (ℕ → Time) → Db → List Reply × Result Unit × Db

-- `connState`
pub record ConnState (Cmd : Type 0) : Type 0 where
  pub in_multi : Bool
  pub cmds : List Cmd

module _ {Cmd : Type 0} where
  -- `connState.push`
  abbrev pub push : Cmd → ConnState Cmd → ConnState Cmd
  push c s = record s { cmds = s.cmds ++ c ∷ [] }

  abbrev pub last? : List Cmd → Option Cmd
  last? [] = none
  last? (c ∷ []) = some c
  last? (c ∷ c' ∷ cs) = last? (c' ∷ cs)

  abbrev pub but_last : List Cmd → List Cmd
  but_last [] = []
  but_last (c ∷ []) = []
  but_last (c ∷ c' ∷ cs) = c ∷ but_last (c' ∷ cs)

  -- `connState.pop`: the last command, and the state without it
  abbrev pub pop : ConnState Cmd → Option Cmd × ConnState Cmd
  pop s = (last? s.cmds, record s { cmds = but_last s.cmds })

  -- `connState.clear`
  abbrev pub clear : ConnState Cmd → ConnState Cmd
  clear s = record s { cmds = [] }

  -- the state that `getState` creates
  abbrev pub new_state : ConnState Cmd
  new_state = record { in_multi = false; cmds = [] }

-- The state of a connection and the tables behind it.
pub record Served (Cmd : Type 0) : Type 0 where
  pub conn : ConnState Cmd
  pub db : Db

-- What is outside the program while it handles a request: the readings of the clock of each command
-- that runs, and the answers of the driver to the transaction.
pub record Outside : Type 0 where
  pub clocks : ℕ → ℕ → Time
  pub tx : TxOutcome

module _ (c : Commands) where
  open c use {Request, Cmd, norm_name, parse_request, run_tx, run_db}

  -- what follows a command in the loop of `handleMulti`: an error ends the loop
  abbrev pub after_run :
      List Reply × Result Unit × Db
      → (Db → List Reply × Result Unit × Db)
      → List Reply × Result Unit × Db
  after_run (out, ok _, db) rest = let (out', r, db') = rest db in (out ++ out', r, db')
  after_run (out, err e, db) rest = (out, err e, db)

  -- the loop of `handleMulti`
  unfoldable pub run_all : List Cmd → (ℕ → ℕ → Time) → Db → List Reply × Result Unit × Db
  run_all [] clocks db = ([], ok tt, db)
  run_all (cmd ∷ cmds) clocks db =
      after_run (run_tx cmd (clocks 0) db) (run_all cmds (λ i. clocks (suc i)))

  -- `handleMulti`: the loop inside `db.Update`. What was written to the client stays written.
  unfoldable pub handle_multi : List Cmd → Outside → Db → List Reply × Db
  handle_multi cmds o db = elim o.tx.begin [
    | some e ↦ ([], db)
    | none ↦
        let (out, r, db') = run_all cmds o.clocks db in (out, (exec_tx o.tx (λ _. (r, db')) db).1)
  ]

  -- the tables and the state after the handler, which clears the queue
  abbrev pub cleared : ConnState Cmd → List Reply × Db → List Reply × Served Cmd
  cleared conn (out, db) = (out, record { conn = clear conn; db = db })

  -- `handleSingle`, on what `pop` returns: `pcmd.Run` on a nil command is a panic, `none`
  abbrev pub handle_single : Option Cmd → Outside → Db → Option (List Reply × Db)
  handle_single none o db = none
  handle_single (some cmd) o db =
      let (out, r, db') = run_db o.tx cmd (o.clocks 0) db in some (out, db')

  -- `handle`
  unfoldable pub handle : Outside → Served Cmd → Option (List Reply × Served Cmd)
  handle o s =
      if s.conn.in_multi
      then some (cleared s.conn (handle_multi s.conn.cmds o s.db))
      else Option.map (cleared s.conn) (handle_single (last? s.conn.cmds) o s.db)

  -- `state.inMulti = …` after the next handler
  abbrev pub leave_multi : Served Cmd → Served Cmd
  leave_multi s = record s { conn = record s.conn { in_multi = false } }

  abbrev pub with_conn : ConnState Cmd → Served Cmd → Served Cmd
  with_conn conn s = record s { conn = conn }

  abbrev pub then_leave :
      List Reply → Option (List Reply × Served Cmd) → Option (List Reply × Served Cmd)
  then_leave header none = none
  then_leave header (some (out, s)) = some (header ++ out, leave_multi s)

  -- `multi`
  unfoldable pub multi : Request → Outside → Served Cmd → Option (List Reply × Served Cmd)
  multi q o s =
      let name = norm_name q in
      let popped = but_last s.conn.cmds in
      if s.conn.in_multi
      then (if str_eq name "multi"
          then some (
            error_reply "ERR MULTI calls can not be nested" ∷ [],
            with_conn (record s.conn { cmds = popped }) s,
          )
          else if str_eq name "exec"
          then then_leave (array (length popped) ∷ [])
              (handle o (with_conn (record s.conn { cmds = popped }) s))
          else if str_eq name "discard"
          then some (string_reply "OK" ∷ [], with_conn (record { in_multi = false; cmds = [] }) s)
          else some (string_reply "QUEUED" ∷ [], s))
      else (if str_eq name "multi"
          then some
              (string_reply "OK" ∷ [], with_conn (record { in_multi = true; cmds = popped }) s)
          else if str_eq name "exec"
          then some (
            error_reply "ERR EXEC without MULTI" ∷ [],
            with_conn (record s.conn { cmds = popped }) s,
          )
          else if str_eq name "discard"
          then some (
            error_reply "ERR EXEC without MULTI" ∷ [],
            with_conn (record s.conn { cmds = popped }) s,
          )
          else handle o s)

  -- `parse`, with the handlers behind it: one request of a connection. (`logging` only logs.)
  abbrev pub dispatch :
      Parsed Cmd → Request → Outside → Served Cmd → Option (List Reply × Served Cmd)
  dispatch (refused text) q o s = some (error_reply text ∷ [], s)
  dispatch (parsed cmd) q o s = multi q o (with_conn (push cmd s.conn) s)

  unfoldable pub serve : Request → Outside → Served Cmd → Option (List Reply × Served Cmd)
  serve q o s = dispatch (parse_request q) q o s

  abbrev pub and_then :
      Option (List Reply × Served Cmd)
      → (Served Cmd → Option (List Reply × Served Cmd))
      → Option (List Reply × Served Cmd)
  and_then none next = none
  and_then (some (out, s)) next = Option.map (λ r. (out ++ r.0, r.1)) (next s)

  -- the requests of a connection, one after the other
  unfoldable pub serve_all :
      List (Request × Outside) → Served Cmd → Option (List Reply × Served Cmd)
  serve_all [] s = some ([], s)
  serve_all ((q, o) ∷ rest) s = and_then (serve q o s) (serve_all rest)
