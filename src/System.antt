-- ===== src/System.antt =====
-- The program at work: the connections of the server (internal/server/state.go, handlers.go), the
-- tables that they share, and the goroutine of redka.go that purges expired keys.

pub mod Purges
pub mod Invariant
mod Tests
use redka.Base.{ℕ, pos, String, Option, some, List, [], ◌∷◌, ◌≡◌, ◌==◌, if◌then◌else◌}
use redka.Core.{Time}
use redka.Schema.{Db, empty_db}
use redka.Sqlx.{TxOutcome}
use redka.Rkey.Database
use redka.Reply.{Reply}
use redka.Server.{ConnState, new_state, Served, Outside, serve}
use redka.Command.{Cmd}
use redka.Command.Redka.{Runtime, redka_commands}

-- the state of each connection, and the tables behind all of them
pub record System : Type 0 where
  pub conns : ℕ → ConnState Cmd
  pub db : Db

-- One round of the loop in `startBgManager`: `DeleteExpired` with `nKeys = 0`, whose result is only
-- logged. The clock reads `t`.
unfoldable pub tick : TxOutcome → Time → Db → Db
tick o t db = (Database.delete_expired o (pos 0) t db).1

-- the rounds of the loop, one after the other
unfoldable pub run_ticks : List (TxOutcome × Time) → Db → Db
run_ticks [] db = db
run_ticks ((o, t) ∷ ticks) db = run_ticks ticks (tick o t db)

-- a new server over a new database: `getState` gives every connection a new state
abbrev pub opened : System
opened = record { conns = λ i. new_state; db = empty_db }

-- what the handlers see of the system for a connection
abbrev pub seen_by : ℕ → System → Served Cmd
seen_by i s = record { conn = s.conns i; db = s.db }

-- the system after the handlers of a connection
abbrev pub after : ℕ → Served Cmd → System → System
after i r s = record { conns = λ j. if j == i then r.conn else s.conns j; db = r.db }

-- A step of the program: the request of a connection, a connection closed and opened again, or a
-- round of the purge. The handlers of a request are one step.
pub data Step (r : Runtime) : System → System → Type 0 where
  request :
      (i : ℕ) (q : String × List String) (o : Outside) (out : List Reply) (s' : Served Cmd)
      {s : System}
      → serve (redka_commands r) q o (seen_by i s) ≡ some (out, s')
      → Step r s (after i s' s)
  reopen : (i : ℕ) {s : System} → Step r s (after i (record { conn = new_state; db = s.db }) s)
  purge : (o : TxOutcome) (t : Time) {s : System} → Step r s (record s { db = tick o t s.db })

-- the states that the steps reach
pub data Reach (r : Runtime) (start : System) : System → Type 0 where
  here : Reach r start start
  step : {s s' : System} → Reach r start s → Step r s s' → Reach r start s'
