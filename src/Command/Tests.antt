-- ===== src/Command/Tests.antt =====
-- Tests and witnesses of the commands.
use redka.Base.{pos, [], ◌∷◌, ◌++◌, none, some, ◌≡◌, refl, length, arith, if◌then◌else◌}
use redka.Core.{sql, value_type, to_int, atoi, ok, unix_milli, itoa}
use redka.Reply.{array, bulk, string_reply}
use redka.Reply.Framing.{pending, IsOneReply}
use redka.Server.{Outside, handle_multi, parsed, refused, run_all, serve_all, new_state}
use redka.Server.Framing.{exec-IsOneReply, exec_failed-pending}
use redka.Command.{Cmd, cmd_get, cmd_h_get_all, cmd_incr, command_error_text, cmd_set}
use redka.Command.Arguments.{parse_one, accept}
use redka.Command.Dispatch.{parse, parse_key_op, parse_string_op}
use redka.Command.Respond.{respond, value_reply}
use redka.Command.Run.{run, run_op}
use redka.Command.Run.Strings.{run_get, run_incr, run_set}
use redka.Command.Framing.{run-IsOneReply}
use redka.Command.Redka.{
  Runtime, redka_tx, redka_commands, redka_commands-WritesOne, EndsWell, serve_all-EndsWell,
}
use redka.Rstring
use redka.Samples.{sample_driver, shop, early, shop-IsValid, late}
use redka.Command.Parse.{parse_set}
use redka.Command.Storing.{plain, run_get-run_set, parse_set-ex}
use redka.Rstring.Set.{Fits, lasts}

abbrev runtime : Runtime
runtime = record {
  driver = sample_driver;
  order = λ {A} items. items;
  vacuum_error = sql "cannot VACUUM from within a transaction";
  lower = λ s. s;
  choice = 0;
}

abbrev outside : Outside
outside = record { clocks = λ i n. early; tx = record { begin = none; commit = none } }

abbrev full_disk : Outside
full_disk = record {
  clocks = λ i n. early;
  tx = record { begin = none; commit = some (sql "disk full") };
}

abbrev get_name : Cmd
get_name = record { name = "get"; op = cmd_get "name" }

abbrev incr_name : Cmd
incr_name = record { name = "incr"; op = cmd_incr "name" (pos 1) }

parse-get_name : parse sample_driver (λ s. s) ("get", "name" ∷ []) ≡ parsed get_name
unfolding parse parse_key_op parse_string_op parse_one
parse-get_name = refl

parse_no_key :
    parse sample_driver (λ s. s) ("get", []) ≡ refused "ERR wrong number of arguments (get)"
unfolding parse parse_key_op parse_string_op parse_one command_error_text
parse_no_key = refl

run-get_name : (run (redka_tx runtime) 0 get_name (λ i. early) shop).0 ≡ bulk "alice" ∷ []
unfolding run run_op run_get Rstring.get Rstring.joined
run-get_name = refl

run-IsOneReply_example :
    IsOneReply
      (run
        (redka_tx runtime)
        0
        (record { name = "hgetall"; op = cmd_h_get_all "cart" })
        (λ i. early)
        shop).0
run-IsOneReply_example =
    run-IsOneReply (redka_tx runtime) 0 (record { name = "hgetall"; op = cmd_h_get_all "cart" })
      (λ i. early) shop

exec-IsOneReply_example : IsOneReply (
    array (length (get_name ∷ get_name ∷ []))
    ∷ (handle_multi (redka_commands runtime) (get_name ∷ get_name ∷ []) outside shop).0)
unfolding run_all run run_op run_get
exec-IsOneReply_example =
    exec-IsOneReply (redka_commands runtime) (redka_commands-WritesOne runtime)
      (get_name ∷ get_name ∷ []) outside shop refl refl

exec_failed-pending_example :
    pending 1 (
      array (length ((get_name ∷ []) ++ incr_name ∷ get_name ∷ []))
      ∷ (handle_multi
          (redka_commands runtime)
          ((get_name ∷ []) ++ incr_name ∷ get_name ∷ [])
          outside
          shop).0)
    ≡ some (length (get_name ∷ []))
unfolding run_all run run_op run_get run_incr respond Rstring.incr to_int Rstring.get Rstring.joined
    atoi
exec_failed-pending_example =
    exec_failed-pending (redka_commands runtime) (redka_commands-WritesOne runtime) (get_name ∷ [])
      incr_name (get_name ∷ []) outside shop value_type refl refl refl

name-Fits : Fits "name" shop
name-Fits = λ old f. ground arith

run_get-run_set_example :
    ((run_set (redka_tx runtime) "set" (λ i. early) shop "name" "bob" (plain (pos 5000000000))).0
      ≡ string_reply "OK" ∷ [])
    × ((run_set (redka_tx runtime) "set" (λ i. early) shop "name" "bob" (plain (pos 5000000000))).1
        ≡ ok tt)
    × ((run_get
          (redka_tx runtime)
          "get"
          (λ i. late)
          (run_set
            (redka_tx runtime)
            "set"
            (λ i. early)
            shop
            "name"
            "bob"
            (plain (pos 5000000000))).2
          "name").0
        ≡ value_reply (if lasts early (pos 5000000000) (unix_milli late) then "bob" else "") ∷ [])
run_get-run_set_example =
    run_get-run_set runtime "set" "get" "name" "bob" (pos 5000000000) (λ i. early) (λ i. late) shop
      shop-IsValid name-Fits

parse_set-ex_example :
    parse_set ("name" ∷ "bob" ∷ "ex" ∷ itoa (pos 60) ∷ [])
    ≡ accept (cmd_set "name" "bob" (plain (pos 60000000000)))
parse_set-ex_example = parse_set-ex "name" "bob" 60 (omega arith) (omega arith)

serve_all-EndsWell_example : EndsWell runtime (
    serve_all
      (redka_commands runtime)
      ((("multi", []), outside)
        ∷ (("set", "name" ∷ "bob" ∷ []), outside)
        ∷ (("incr", "name" ∷ []), outside)
        ∷ (("exec", []), outside)
        ∷ (("hset", "cart" ∷ "pear" ∷ "2" ∷ []), full_disk)
        ∷ [])
      (record { conn = new_state; db = shop }))
serve_all-EndsWell_example =
    serve_all-EndsWell runtime
      ((("multi", []), outside)
        ∷ (("set", "name" ∷ "bob" ∷ []), outside)
        ∷ (("incr", "name" ∷ []), outside)
        ∷ (("exec", []), outside)
        ∷ (("hset", "cart" ∷ "pear" ∷ "2" ∷ []), full_disk)
        ∷ [])
      (record { conn = new_state; db = shop }) (λ h. refl) shop-IsValid
