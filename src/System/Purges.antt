-- ===== src/System/Purges.antt =====
-- The purge that runs in the background (startBgManager of redka.go): nothing of it can be seen.
use redka.Base.{ℤ, pos, ◌≤ℤ◌, Option, none, some, List, [], ◌∷◌, refl, arith, ◌∙◌, All}
use redka.Core.{Error, Time, unix_milli}
use redka.Schema.{Db}
use redka.Schema.Valid.{IsValid}
use redka.Sqlx.{TxOutcome, exec_tx, sure}
use redka.Sqlx.Keeps.{exec_tx-Keeps}
use redka.Rkey
use redka.Rkey.Invariant.{delete_expired-IsValid}
use redka.Rkey.Purge.{SameView, delete_expired-SameView}
use redka.Rkey.Database
use redka.System.{tick, run_ticks}

same-SameView : (t : ℤ) (db : Db) → SameView t db db
same-SameView t db = record {
  entries = λ j now later. refl;
  strings = λ j now k later e. refl;
  fields = λ j now k f later e. refl;
  elems = λ j now k x later e. refl;
}

later_still : (t t' now : ℤ) → t ≤ℤ t' → t' ≤ℤ now → t ≤ℤ now
later_still t t' now h h' = ground arith

later-SameView : (t t' : ℤ) (db db' : Db) → t ≤ℤ t' → SameView t db db' → SameView t' db db'
later-SameView t t' db db' h v = record {
  entries = λ j now later. v.entries j now (later_still t t' now h later);
  strings = λ j now k later e. v.strings j now k (later_still t t' now h later) e;
  fields = λ j now k f later e. v.fields j now k f (later_still t t' now h later) e;
  elems = λ j now k x later e. v.elems j now k x (later_still t t' now h later) e;
}

then-SameView : (t : ℤ) (a b c : Db) → SameView t a b → SameView t b c → SameView t a c
then-SameView t a b c v w = record {
  entries = λ j now later. w.entries j now later ∙ v.entries j now later;
  strings = λ j now k later e.
      w.strings j now k later (v.entries j now later ∙ e) ∙ v.strings j now k later e;
  fields = λ j now k f later e.
      w.fields j now k f later (v.entries j now later ∙ e) ∙ v.fields j now k f later e;
  elems = λ j now k x later e.
      w.elems j now k x later (v.entries j now later ∙ e) ∙ v.elems j now k x later e;
}

pub tick-IsValid : (o : TxOutcome) (t : Time) (db : Db) → IsValid db → IsValid (tick o t db)
unfolding tick Database.delete_expired
tick-IsValid o t db w = exec_tx-Keeps o _ (λ db' w'. delete_expired-IsValid db' w' (pos 0) t) db w

tick-SameView :
    (o : TxOutcome) (t : Time) (db : Db) → IsValid db → SameView (unix_milli t) db (tick o t db)
unfolding tick Database.delete_expired exec_tx
tick-SameView o t db w = begun o.begin o.commit
  where
    begun :
        (b c : Option Error)
        → SameView
            (unix_milli t)
            db
            (exec_tx (record { begin = b; commit = c }) (sure (Rkey.delete_expired (pos 0) t)) db).1
    begun (some e) c = same-SameView (unix_milli t) db
    begun none (some e) = same-SameView (unix_milli t) db
    begun none none = delete_expired-SameView (pos 0) t db w

-- From valid tables, any number of rounds of the background purge, none of them later than `now`
-- and each of them with any answers of the driver, leave valid tables in which a reader from `now`
-- on sees no difference: every name has the live key that it had, with its string, its fields and
-- its elements.
pub run_ticks-SameView :
    (ticks : List (TxOutcome × Time)) (now : ℤ) (db : Db)
    → IsValid db
    → All (λ (x : TxOutcome × Time). unix_milli x.1 ≤ℤ now) ticks
    → IsValid (run_ticks ticks db) × SameView now db (run_ticks ticks db)
unfolding run_ticks
run_ticks-SameView [] now db w past = (w, same-SameView now db)
run_ticks-SameView ((o, t) ∷ ticks) now db w past =
    let (w', same) = run_ticks-SameView ticks now (tick o t db) (tick-IsValid o t db w) past.1 in
    (
      w',
      then-SameView now db (tick o t db) _
          (later-SameView (unix_milli t) now db (tick o t db) past.0 (tick-SameView o t db w)) same,
    )
