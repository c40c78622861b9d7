-- ===== src/Server/Tests.antt =====
-- Tests and witnesses of the server, with a command that sets a value and one that fails.
use redka.Base.{
  ℕ, ◌≡◌, refl, none, some, List, [], ◌∷◌, ◌++◌, arith, eq_iff, if◌then◌else◌, length, All, str_eq,
  String,
}
use redka.Core.{Result, ok, err, value_type, Time, str}
use redka.Schema.{Db}
use redka.Reply.{Reply, string_reply, array, error_reply}
use redka.Rstring
use redka.Server.{
  Commands, Outside, Parsed, parsed, refused, new_state, handle_multi, run_all, serve_all,
}
use redka.Server.Idle.{Serves, serve_all-Serves}
use redka.Server.Batch.{Queues, requests, commands, queued, serve_batch, failed_batch}
use redka.Samples.{sample_driver, shop, early}

data SampleCmd : Type 0 where
  set_name : SampleCmd
  bad : SampleCmd
  control : SampleCmd

abbrev parse_sample : String → Parsed SampleCmd
parse_sample q =
    if str_eq q "set"
    then parsed set_name
    else if str_eq q "bad"
    then parsed bad
    else if str_eq q "nonsense"
    then refused "ERR unknown command"
    else parsed control

abbrev replied : Result Unit × Db → List Reply × Result Unit × Db
replied (ok u, db) = (string_reply "OK" ∷ [], ok tt, db)
replied (err e, db) = (error_reply "ERR" ∷ [], err e, db)

abbrev run_sample : SampleCmd → (ℕ → Time) → Db → List Reply × Result Unit × Db
run_sample set_name clock db = replied (Rstring.set sample_driver "name" (str "bob") (clock 0) db)
run_sample bad clock db = (error_reply "ERR" ∷ [], err value_type, db)
run_sample control clock db = (string_reply "OK" ∷ [], ok tt, db)

abbrev sample_commands : Commands
sample_commands = record {
  Request = String;
  Cmd = SampleCmd;
  norm_name = λ q. q;
  parse_request = parse_sample;
  run_tx = run_sample;
  run_db = λ o. run_sample;
}

abbrev outside : Outside
outside = record { clocks = λ i n. early; tx = record { begin = none; commit = none } }

abbrev queue : List (String × Outside × SampleCmd)
queue = ("set", outside, set_name) ∷ ("bad", outside, bad) ∷ []

queues : All (Queues sample_commands) queue
queues = (
  (
    refl,
    ground (arith, eq_iff "set" "multi"),
    ground (arith, eq_iff "set" "exec"),
    ground (arith, eq_iff "set" "discard"),
  ),
  (
    (
      refl,
      ground (arith, eq_iff "bad" "multi"),
      ground (arith, eq_iff "bad" "exec"),
      ground (arith, eq_iff "bad" "discard"),
    ),
    tt,
  ),
)

serve_batch_example :
    serve_all sample_commands
      (("multi", outside) ∷ (requests sample_commands queue ++ ("exec", outside) ∷ []))
      (record { conn = new_state; db = shop })
    ≡ some (
      string_reply "OK"
          ∷ (queued sample_commands queue
              ++ (array (length (commands sample_commands queue))
                  ∷ (handle_multi sample_commands
                      (commands sample_commands queue)
                      outside
                      shop).0)),
      record {
        conn = new_state;
        db = (handle_multi sample_commands (commands sample_commands queue) outside shop).1;
      },
    )
serve_batch_example =
    serve_batch sample_commands "multi" control queue "exec" control outside outside shop refl refl
      queues refl refl

failed_batch_example :
    handle_multi sample_commands (control ∷ bad ∷ set_name ∷ []) outside shop
    ≡ ((run_all sample_commands (control ∷ bad ∷ []) outside.clocks shop).0, shop)
unfolding run_all
failed_batch_example =
    failed_batch sample_commands (control ∷ []) bad (set_name ∷ []) outside shop value_type refl
      refl

serve_all-Serves_example : Serves sample_commands (
    serve_all sample_commands
      (("set", outside)
        ∷ ("nonsense", outside)
        ∷ ("multi", outside)
        ∷ ("set", outside)
        ∷ ("exec", outside)
        ∷ [])
      (record { conn = new_state; db = shop }))
serve_all-Serves_example =
    serve_all-Serves sample_commands
      (("set", outside)
        ∷ ("nonsense", outside)
        ∷ ("multi", outside)
        ∷ ("set", outside)
        ∷ ("exec", outside)
        ∷ [])
      (record { conn = new_state; db = shop }) (λ h. refl)
