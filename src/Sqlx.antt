-- ===== src/Sqlx.antt =====
-- internal/sqlx: typed errors (sql.go) and transactions (db.go).
pub mod Keeps
use redka.Base.{
  ◌≡◌, refl, ◌||◌, str_eq, if◌then◌else◌, ℤ, pos, negsuc, take, List, Option, none, some,
}
use redka.Core.{Error, key_type, error_text, Result, ok, err}
use redka.Schema.{Db}

-- `TypedError`
unfoldable pub typed_error : Error → Error
unfolding error_text
typed_error e =
    let text = error_text e in
    if str_eq text "key type mismatch" || str_eq text "UNIQUE constraint failed: rkey.key"
    then key_type
    else e

-- A function of a transaction: its result, and the tables as the transaction sees them.
abbrev pub Action : Type 0 → Type 0
Action A = Db → Result A × Db

-- what follows a step: the next step, or nothing after an error
abbrev pub continue : {A B : Type 0} → Result A × Db → (A → Action B) → Result B × Db
continue (ok a, db) f = f a db
continue (err e, db) f = (err e, db)

infixl 5 ◌>>=◌ ◌>>◌
abbrev pub ◌>>=◌ : {A B : Type 0} → Action A → (A → Action B) → Action B
◌>>=◌ m f db = continue (m db) f

abbrev pub ◌>>◌ : {A B : Type 0} → Action A → Action B → Action B
m >> k = m >>= λ _. k

abbrev pub pure : {A : Type 0} → A → Action A
pure a db = (ok a, db)

abbrev pub raise : {A : Type 0} → Error → Action A
raise e db = (err e, db)

abbrev pub gets : {A : Type 0} → (Db → A) → Action A
gets f db = (ok (f db), db)

-- an operation that does not fail, as an action
abbrev pub sure : {A : Type 0} → (Db → A × Db) → Action A
sure f db = let (a, db') = f db in (ok a, db')

-- A statement that changes the tables, or fails and leaves them.
abbrev pub settle : Db → Result Db → Result Unit × Db
settle db (ok db') = (ok tt, db')
settle db (err e) = (err e, db)

abbrev pub exec : (Db → Result Db) → Action Unit
exec statement db = settle db (statement db)

-- `if err != nil { return sqlx.TypedError(err) }`
abbrev pub retype : {A : Type 0} → Result A × Db → Result A × Db
retype (ok a, db) = (ok a, db)
retype (err e, db) = (err (typed_error e), db)

abbrev pub typed : {A : Type 0} → Action A → Action A
typed m db = retype (m db)

-- How the driver answers `BeginTx` and `Commit`: `none` is success.
pub record TxOutcome : Type 0 where
  pub begin : Option Error
  pub commit : Option Error

-- The end of `execTx`: the deferred rollback restores the tables unless the commit went through.
abbrev finish : {A : Type 0} → TxOutcome → Db → Result A × Db → Result A × Db
finish o before (err e, after) = (err e, before)
finish o before (ok a, after) = elim o.commit [ none ↦ (ok a, after) | some e ↦ (err e, before) ]

-- `execTx`, with the result that the function assigns beside its error
unfoldable pub exec_tx : {A : Type 0} → TxOutcome → Action A → Action A
exec_tx o f db = elim o.begin [ some e ↦ (err e, db) | none ↦ finish o db (f db) ]

-- what follows a step that fails is not run
pub continue_err :
    {A B : Type 0} (r : Result A × Db) (f : A → Action B) (e : Error)
    → r.0 ≡ err e
    → (continue r f).0 ≡ err e
continue_err (ok a, db) f e h = cc
continue_err (err e', db) f e h = cc

-- a function that fails in a transaction that begins
pub exec_tx-err :
    {A : Type 0} (o : TxOutcome) (f : Action A) (db : Db) (e : Error)
    → o.begin ≡ none
    → (f db).0 ≡ err e
    → exec_tx o f db ≡ (err e, db)
unfolding exec_tx
exec_tx-err {A} o f db e began failed = rw began (rolled_back (f db) failed)
  where
    rolled_back : (r : Result A × Db) → r.0 ≡ err e → finish o db r ≡ (err e, db)
    rolled_back (ok a, after) h = cc
    rolled_back (err e', after) h = cc

-- `limit :count`: a negative count is no limit
abbrev pub limit {ℓ} : {A : Type ℓ} → ℤ → List A → List A
limit (pos n) rows = take n rows
limit (negsuc n) rows = rows

-- a step that succeeds, with another result
pub continue-pure :
    {A B : Type 0} (r : Result A × Db) (b : B) {a : A}
    → r.0 ≡ ok a
    → ((continue r (λ _. pure b)).0 ≡ ok b) × ((continue r (λ _. pure b)).1 ≡ r.1)
continue-pure (ok a, db) b h = (refl, refl)
continue-pure (err e, db) b h = cc
