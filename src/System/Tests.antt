-- ===== src/System/Tests.antt =====
-- Tests and witnesses of the program at work.
use redka.Base.{List, [], ◌∷◌, none, some, ◌≡◌, refl, arith}
use redka.Core.{sql, unix_milli}
use redka.Schema.Valid.{IsValid}
use redka.Sqlx.{TxOutcome}
use redka.Rkey.Purge.{SameView}
use redka.Reply.{Reply, bulk}
use redka.Server.{Outside, Served, new_state, serve, multi, handle}
use redka.Command.{Cmd}
use redka.Command.Dispatch.{parse, parse_key_op, parse_string_op}
use redka.Command.Arguments.{parse_one}
use redka.Command.Run.{run, run_op}
use redka.Command.Run.Strings.{run_get}
use redka.Command.Redka.{Runtime, redka_commands}
use redka.Rstring
use redka.Samples.{sample_driver, shop, early, late, shop-IsValid}
use redka.System.{
  System, Reach, here, step, request, reopen, purge, tick, run_ticks, seen_by, after,
}
use redka.System.Purges.{run_ticks-SameView}
use redka.System.Invariant.{Healthy, reach_lem}

abbrev fine : TxOutcome
fine = record { begin = none; commit = none }

abbrev full : TxOutcome
full = record { begin = none; commit = some (sql "disk full") }

abbrev runtime : Runtime
runtime = record {
  driver = sample_driver;
  order = λ {A} items. items;
  vacuum_error = sql "cannot VACUUM from within a transaction";
  lower = λ s. s;
  choice = 0;
}

abbrev outside : Outside
outside = record { clocks = λ i n. early; tx = fine }

abbrev at_work : System
at_work = record { conns = λ i. new_state; db = shop }

at_work-Healthy : Healthy at_work
at_work-Healthy = record { valid = shop-IsValid; idle = λ i h. refl }

run_ticks-SameView_example :
    IsValid (run_ticks ((fine, early) ∷ (full, late) ∷ []) shop)
    × SameView (unix_milli late) shop (run_ticks ((fine, early) ∷ (full, late) ∷ []) shop)
unfolding unix_milli
run_ticks-SameView_example =
    run_ticks-SameView ((fine, early) ∷ (full, late) ∷ []) (unix_milli late) shop shop-IsValid
      (omega arith, (omega arith, tt))

get_name-served :
    serve (redka_commands runtime) ("get", "name" ∷ []) outside (seen_by 0 at_work)
    ≡ some (bulk "alice" ∷ [], seen_by 0 at_work)
unfolding serve multi handle parse parse_key_op parse_string_op parse_one run run_op run_get
    Rstring.get Rstring.joined
get_name-served = refl

-- a request, a round of the purge and a connection opened again
abbrev worked : System
worked =
    after 0 (record { conn = new_state; db = tick fine late shop })
      (record (after 0 (seen_by 0 at_work) at_work) { db = tick fine late shop })

work : Reach runtime at_work worked
work =
    step
      (step
        (step here (
          request 0 ("get", "name" ∷ []) outside (bulk "alice" ∷ []) (seen_by 0 at_work)
            get_name-served))
        (purge fine late))
      (reopen 0)

reach_lem_example :
    Healthy worked
    × ((out : List Reply) × (s' : Served Cmd) × (serve
            (redka_commands runtime)
            ("get", "name" ∷ [])
            outside
            (seen_by 1 worked)
          ≡ some (out, s')))
reach_lem_example =
    reach_lem runtime at_work worked 1 ("get", "name" ∷ []) outside at_work-Healthy work
