-- ===== src/Command/Storing.antt =====
-- SET and GET from the arguments to the replies.
use redka.Base.{
  ℕ, ◌*◌, ◌≤◌, ◌<◌, pos, ◌*ℤ◌, wrap, wrap_of_IsInt, IsInt, max_int, String, true, false, List, [],
  ◌∷◌, ◌≡◌, refl, arith, ap, ◌∙◌, if◌then◌else◌, eq_iff, ltb_ℤ,
}
use redka.Core.{itoa, Duration, Time, Result, ok, err, bytes, unix_milli, is_value_type}
use redka.Core.Decimal.Laws.{atoi-itoa}
use redka.Schema.{Db}
use redka.Schema.Valid.{IsValid}
use redka.Sqlx.{continue-pure}
use redka.Reply.{Reply, string_reply}
use redka.Command.{cmd_set, SetOptions, invalid_int}
use redka.Command.Arguments.{accept, integer, second}
use redka.Command.Parse.{parse_set, parse_set_expires, no_options}
use redka.Command.Respond.{Outcome, respond, value_reply}
use redka.Command.Run.Strings.{run_set, run_get, set_op, ok_or_null}
use redka.Command.Redka.{Runtime, redka_tx}
use redka.Rstring
use redka.Rstring.Set.{Fits, lasts, get-set_expires}

-- SET without NX and XX
abbrev pub plain : Duration → SetOptions
plain ttl = record { if_nx = false; if_xx = false; ttl = ttl }

seconds : (n : ℕ) → pos n *ℤ second ≡ pos (n * 1000000000)
unfolding ◌*ℤ◌
seconds n = ground arith

-- `SET key value ex n` with `n` above zero, in which n seconds fit into a duration, is a write with
-- a ttl of n seconds.
pub parse_set-ex :
    (key value : String) (n : ℕ)
    → 0 < n
    → n * 1000000000 ≤ max_int
    → parse_set (key ∷ value ∷ "ex" ∷ itoa (pos n) ∷ [])
      ≡ accept (cmd_set key value (plain (pos (n * 1000000000))))
unfolding parse_set parse_set_expires integer
parse_set-ex key value n above fits =
    let small : IsInt (pos n) = ground arith in
    let total : wrap (pos n *ℤ second) ≡ pos (n * 1000000000) =
      ap wrap (seconds n) ∙ wrap_of_IsInt _ (ground arith) in
    let some_time : ltb_ℤ (pos 0) (pos (n * 1000000000)) ≡ true = ground arith in
    let read : integer invalid_int (itoa (pos n)) ≡ accept (pos n) =
      rw (atoi-itoa (pos n) small, integer) in
    let option : parse_set_expires no_options "ex" (itoa (pos n))
        ≡ accept (plain (pos (n * 1000000000))) =
      rw (read, parse_set_expires) (rw total (rw some_time)) in
    rw (option, parse_set)

respond-ok :
    {A : Type 0} (name : String) (replies : A → List Reply) (r : Result A × Db) (a : A)
    → r.0 ≡ ok a
    → respond name replies r ≡ (replies a, ok tt, r.1)
unfolding respond
respond-ok name replies (ok b, db) a h = cc
respond-ok name replies (err e, db) a h = cc

-- SET and then GET in a transaction, on valid tables where the name has no row of another type: SET
-- answers OK without an error, and every GET of the name answers with the bytes that were set for
-- as long as the ttl says (always, if it is not positive), and with null after that. Bytes that
-- are empty are answered with null too.
pub run_get-run_set :
    (r : Runtime) (name name' key value : String) (ttl : Duration) (clock clock' : ℕ → Time)
    (db : Db)
    → IsValid db
    → Fits key db
    → ((run_set (redka_tx r) name clock db key value (plain ttl)).0 ≡ string_reply "OK" ∷ [])
      × ((run_set (redka_tx r) name clock db key value (plain ttl)).1 ≡ ok tt)
      × ((run_get
            (redka_tx r)
            name'
            clock'
            (run_set (redka_tx r) name clock db key value (plain ttl)).2
            key).0
          ≡ value_reply (if lasts (clock 0) ttl (unix_milli (clock' 0)) then value else "") ∷ [])
unfolding run_set run_get set_op
run_get-run_set r name name' key value ttl clock clock' db w fits =
    let good : is_value_type (bytes value) ≡ true = unfold is_value_type in refl in
    let (done, valid, reads) =
      get-set_expires r.driver key (bytes value) value ttl (clock 0) db w fits good
        (r.driver.stored_bytes value) in
    let (result, tables) =
      continue-pure (Rstring.set_expires r.driver key (bytes value) ttl (clock 0) db) true done in
    let e =
      respond-ok name ok_or_null (set_op (redka_tx r) name clock db key value (plain ttl) db) true
        result in
    (
      ap (λ (x : Outcome). x.0) e,
      ap (λ (x : Outcome). x.1) e,
      ap (λ x. value_reply (Rstring.get key (clock' 0) x) ∷ [])
            (ap (λ (x : Outcome). x.2) e ∙ tables)
          ∙ ap (λ v. value_reply v ∷ []) (reads key (clock' 0) ∙ rw ((eq_iff key key).1 refl)),
    )
