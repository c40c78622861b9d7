-- ===== src/Command/Respond.antt =====
-- internal/command: what the `Run` functions have in common.
use redka.Base.{ℕ, ℤ, pos, String, Bool, Option, none, some, List, [], ◌∷◌, lookup, if◌then◌else◌}
use redka.Core.{Error, Result, ok, err, Value, exists, Driver}
use redka.Schema.{Db}
use redka.Sqlx.{Action}
use redka.Reply.{Reply, error_reply, string_reply, bulk, int_reply, null}
use redka.Command.{domain_error}

-- What a command runs with: `Redka` over a transaction or over the database, which differ in how
-- an operation that writes is run (as it is, or in a transaction of its own) and in the error of
-- SQLite's `vacuum`, if it gives one; and the order in which Go iterates over a map.
pub record Env : Type 1 where
  pub driver : Driver
  pub update : {A : Type 0} → Action A → Action A
  pub vacuum : Option Error
  pub order : {A : Type 0} → List (String × A) → List (String × A)

-- What a run writes, its error, and the tables.
abbrev pub Outcome : Type 0
Outcome = List Reply × Result Unit × Db

-- `if err != nil { w.WriteError(cmd.Error(err)); return nil, err }`, and else the replies
unfoldable pub respond : {A : Type 0} → String → (A → List Reply) → Result A × Db → Outcome
respond name replies (ok a, db) = (replies a, ok tt, db)
respond name replies (err e, db) = (error_reply (domain_error name e) ∷ [], err e, db)

abbrev pub int_of_bool : Bool → List Reply
int_of_bool b = int_reply (if b then pos 1 else pos 0) ∷ []

abbrev pub int_of_ℕ : ℕ → List Reply
int_of_ℕ n = int_reply (pos n) ∷ []

abbrev pub int_of_ℤ : ℤ → List Reply
int_of_ℤ n = int_reply n ∷ []

abbrev pub ok_reply : {A : Type 0} → A → List Reply
ok_reply a = string_reply "OK" ∷ []

abbrev pub value_reply : Value → Reply
value_reply v = if exists v then bulk v else null

abbrev pub or_null : Value → List Reply
or_null v = value_reply v ∷ []

-- an array of bulk strings
unfoldable pub bulks : {A : Type 0} → (A → String) → List A → List Reply
bulks text [] = []
bulks text (x ∷ xs) = bulk (text x) ∷ bulks text xs

-- the values of a map for given names, nil where there is none
abbrev pub nil_default : Option Value → Value
nil_default none = ""
nil_default (some v) = v

unfoldable pub picked : List String → List (String × Value) → List Reply
picked [] items = []
picked (n ∷ ns) items = value_reply (nil_default (lookup n items)) ∷ picked ns items

-- a bulk string for each name and each value
unfoldable pub pairs : List (String × Value) → List Reply
pairs [] = []
pairs ((n, v) ∷ items) = bulk n ∷ bulk v ∷ pairs items
