-- ===== src/Command/Redka.antt =====
-- The commands as the server runs them: `Parse` and `Run` with `RedkaTx` or `RedkaDB` (a.go).
use redka.Base.{ℕ, String, List, Option, none, some, ◌≡◌, refl}
use redka.Server.Idle.{IsIdle, Serves, serve-Serves, serve_all-Serves}
use redka.Core.{Error, Driver}
use redka.Sqlx.{TxOutcome, exec_tx}
use redka.Server.{Commands, Outside, Served, serve, serve_all}
use redka.Server.Invariant.{RunsKeep, LeftValid, serve-LeftValid, serve_all-LeftValid}
use redka.Schema.Valid.{IsValid}
use redka.Sqlx.Keeps.{exec_tx-Keeps}
use redka.Reply.{Reply}
use redka.Command.Invariant.{run-EndsValid}
use redka.Server.Framing.{WritesOne}
use redka.Command.{Cmd}
use redka.Command.Dispatch.{parse}
use redka.Command.Respond.{Env}
use redka.Command.Run.{run}
use redka.Command.Framing.{run-IsOneReply}

-- What is outside the program: the driver, Go's order of iteration over a map, the error that
-- SQLite gives to `vacuum` inside a transaction, `strings.ToLower`, and the draw of RANDOMKEY.
pub record Runtime : Type 1 where
  pub driver : Driver
  pub order : {A : Type 0} → List (String × A) → List (String × A)
  pub vacuum_error : Error
  pub lower : String → String
  pub choice : ℕ

-- `RedkaTx`: an operation runs in the transaction that there is
abbrev pub redka_tx : Runtime → Env
redka_tx r = record {
  driver = r.driver;
  update = λ m. m;
  vacuum = some r.vacuum_error;
  order = r.order;
}

-- `RedkaDB`: an operation that writes runs in a transaction of its own
abbrev pub redka_db : Runtime → TxOutcome → Env
redka_db r o = record {
  driver = r.driver;
  update = λ m. exec_tx o m;
  vacuum = none;
  order = r.order;
}

abbrev pub redka_commands : Runtime → Commands
redka_commands r = record {
  Request = String × List String;
  Cmd = Cmd;
  norm_name = λ q. r.lower q.0;
  parse_request = parse r.driver r.lower;
  run_tx = run (redka_tx r) r.choice;
  run_db = λ o. run (redka_db r o) r.choice;
}

-- The commands of the program write one complete reply each, in a transaction.
pub redka_commands-WritesOne : (r : Runtime) → WritesOne (redka_commands r)
redka_commands-WritesOne r cmd clock db = run-IsOneReply (redka_tx r) r.choice cmd clock db

-- The commands of the program keep the tables valid, in a transaction and on their own.
redka_commands-RunsKeep : (r : Runtime) → RunsKeep (redka_commands r)
redka_commands-RunsKeep r = record {
  in_tx = λ cmd clock db. run-EndsValid (redka_tx r) r.choice cmd clock db (λ A m k. k);
  alone = λ o cmd clock db.
      run-EndsValid (redka_db r o) r.choice cmd clock db (λ A m k. exec_tx-Keeps o m k);
}

-- The requests have an outcome: the connection is idle or in MULTI, and the tables are valid.
abbrev pub EndsWell : Runtime → Option (List Reply × Served Cmd) → Type 0
EndsWell r res =
    (out : List Reply) × (s : Served Cmd) × (res ≡ some (out, s)) × IsIdle s.conn × IsValid s.db

served_well :
    (r : Runtime) (res : Option (List Reply × Served Cmd))
    → Serves (redka_commands r) res
    → LeftValid (redka_commands r) res
    → EndsWell r res
unfolding LeftValid
served_well r none h w = absurd h
served_well r (some (out, s)) h w = (out, s, refl, h, w)

-- One request does not panic either, and leaves valid tables.
pub serve-EndsWell :
    (r : Runtime) (q : String × List String) (u : Outside) (s : Served Cmd)
    → IsIdle s.conn
    → IsValid s.db
    → EndsWell r (serve (redka_commands r) q u s)
serve-EndsWell r q u s idle w =
    served_well r (serve (redka_commands r) q u s) (serve-Serves (redka_commands r) q u s idle)
      (serve-LeftValid (redka_commands r) (redka_commands-RunsKeep r) q u s w)

-- Whatever requests a connection sends, whatever the driver answers to begin and commit at each of
-- them and whatever the clock reads: from valid tables, and a queue that is empty unless the
-- connection is in MULTI, no handler of the program panics, and afterwards the tables are valid and
-- the queue is empty unless the connection is in MULTI.
pub serve_all-EndsWell :
    (r : Runtime) (qs : List ((String × List String) × Outside)) (s : Served Cmd)
    → IsIdle s.conn
    → IsValid s.db
    → EndsWell r (serve_all (redka_commands r) qs s)
serve_all-EndsWell r qs s idle w =
    served_well r (serve_all (redka_commands r) qs s)
      (serve_all-Serves (redka_commands r) qs s idle)
      (serve_all-LeftValid (redka_commands r) (redka_commands-RunsKeep r) qs s w)
