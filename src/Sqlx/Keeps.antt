-- ===== src/Sqlx/Keeps.antt =====
-- Actions that keep the tables valid, one step after another and in a transaction.
use redka.Base.{Bool, true, false, Option, none, some, if◌then◌else◌}
use redka.Core.{Result, ok, err, Error}
use redka.Schema.{Db}
use redka.Schema.Valid.{IsValid, LeavesValid}
use redka.Sqlx.{Action, continue, ◌>>=◌, ◌>>◌, pure, TxOutcome, finish, exec_tx}

-- from valid tables the action leaves valid tables, whatever it returns
abbrev pub Keeps : {A : Type 0} → Action A → Type 0
Keeps m = (db : Db) → IsValid db → LeavesValid (m db)

pub pure-Keeps : {A : Type 0} (a : A) → Keeps (pure a)
pure-Keeps a db w = w

continue-IsValid :
    {A B : Type 0} (r : Result A × Db) (f : A → Action B)
    → IsValid r.1
    → ((a : A) → Keeps (f a))
    → LeavesValid (continue r f)
continue-IsValid (ok a, db) f w h = h a db w
continue-IsValid (err e, db) f w h = w

pub bind-Keeps :
    {A B : Type 0} (m : Action A) (f : A → Action B)
    → Keeps m
    → ((a : A) → Keeps (f a))
    → Keeps (m >>= f)
bind-Keeps m f h k db w = continue-IsValid (m db) f (h db w) k

pub then-Keeps : {A B : Type 0} (m : Action A) (k : Action B) → Keeps m → Keeps k → Keeps (m >> k)
then-Keeps m k h h' = bind-Keeps m (λ _. k) h (λ a. h')

pub if-IsValid :
    {A : Type 0} (b : Bool) (x y : A × Db)
    → IsValid x.1
    → IsValid y.1
    → LeavesValid (if b then x else y)
if-IsValid true x y hx hy = hx
if-IsValid false x y hx hy = hy

finish-IsValid :
    {A : Type 0} (o : TxOutcome) (before : Db) (r : Result A × Db)
    → IsValid before
    → IsValid r.1
    → LeavesValid (finish o before r)
finish-IsValid o before (err e, after) w h = w
finish-IsValid {A} o before (ok a, after) w h = committed o.commit
  where
    committed :
        (c : Option Error)
        → LeavesValid {A = Result A} (elim c [ none ↦ (ok a, after) | some e ↦ (err e, before) ])
    committed none = h
    committed (some e) = w

-- A transaction leaves what its function left, or what was there before.
pub exec_tx-Keeps : {A : Type 0} (o : TxOutcome) (m : Action A) → Keeps m → Keeps (exec_tx o m)
unfolding exec_tx
exec_tx-Keeps {A} o m h db w = begun o.begin
  where
    begun :
        (b : Option Error)
        → LeavesValid {A = Result A} (elim b [ some e ↦ (err e, db) | none ↦ finish o db (m db) ])
    begun none = finish-IsValid o db (m db) w (h db w)
    begun (some e) = w
