-- ===== src/Rkey/Database.antt =====
-- internal/rkey/db.go: the methods of the key repository outside a transaction. One that writes runs
-- its operation in a transaction of its own; one that reads, and `DeleteAll`, run it as it is.
use redka.Base.{ℕ, ℤ, String, Bool, List}
use redka.Core.{Key, Time, Duration, Driver}
use redka.Schema.{Db}
use redka.Sqlx.{Action, TxOutcome, exec_tx, sure}
use redka.Rkey

-- `DB.Exists`
unfoldable pub exists : String → Time → Db → Bool
exists key t db = Rkey.exists key t db

-- `DB.Count`
unfoldable pub count : List String → Time → Db → ℕ
count keys t db = Rkey.count keys t db

-- `DB.Keys`
unfoldable pub keys : Driver → String → Time → Db → List Key
keys d pattern t db = Rkey.keys d pattern t db

-- `DB.Scan`
unfoldable pub scan : Driver → ℤ → String → ℤ → Time → Db → Rkey.ScanResult
scan d cursor pattern n t db = Rkey.scan d cursor pattern n t db

-- `DB.Random`
unfoldable pub random : ℕ → Time → Db → Key
random choice t db = Rkey.random choice t db

-- `DB.Get`
unfoldable pub get : String → Time → Db → Key
get key t db = Rkey.get key t db

-- `DB.Expire`
unfoldable pub expire : TxOutcome → String → Duration → Time → Time → Action Bool
expire o key ttl t t' = exec_tx o (sure (Rkey.expire key ttl t t'))

-- `DB.ExpireAt`
unfoldable pub expire_at : TxOutcome → String → Time → Time → Action Bool
expire_at o key at t = exec_tx o (sure (Rkey.expire_at key at t))

-- `DB.Persist`
unfoldable pub persist : TxOutcome → String → Time → Action Bool
persist o key t = exec_tx o (sure (Rkey.persist key t))

-- `DB.Rename`
unfoldable pub rename : TxOutcome → String → String → Time → Time → Time → Action Unit
rename o key new_key t t' t'' = exec_tx o (Rkey.rename key new_key t t' t'')

-- `DB.RenameNotExists`
unfoldable pub rename_not_exists : TxOutcome → String → String → Time → Time → Time → Action Bool
rename_not_exists o key new_key t t' t'' = exec_tx o (Rkey.rename_not_exists key new_key t t' t'')

-- `DB.Delete`
unfoldable pub delete : TxOutcome → List String → Time → Action ℕ
delete o keys t = exec_tx o (sure (Rkey.delete keys t))

-- `DB.DeleteExpired`
unfoldable pub delete_expired : TxOutcome → ℤ → Time → Action ℕ
delete_expired o n t = exec_tx o (sure (Rkey.delete_expired n t))

-- `DB.DeleteAll`
unfoldable pub delete_all : Db → Db
delete_all db = Rkey.delete_all db
