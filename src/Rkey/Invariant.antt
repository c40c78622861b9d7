-- ===== src/Rkey/Invariant.antt =====
-- The operations of the key repository keep the tables valid. (`Rename` is in Rkey/Rename.)
use redka.Base.{ℤ, pos, suc, String, List, refl}
use redka.Core.{Time, TypeId}
use redka.Schema.{Db}
use redka.Schema.Valid.{IsValid, LeavesValid, delete_keys-IsValid, update_keys-IsValid}
use redka.Rkey.{delete, delete_type, delete_all, delete_expired, expire_at, expire, persist}

module _ (db : Db) (v : IsValid db) where
  pub delete-IsValid : (keys : List String) (t : Time) → LeavesValid (delete keys t db)
  unfolding delete
  delete-IsValid keys t = delete_keys-IsValid _ db v

  pub delete_type-IsValid :
      (type : TypeId) (keys : List String) (t : Time) → LeavesValid (delete_type type keys t db)
  unfolding delete_type
  delete_type-IsValid type keys t = delete_keys-IsValid _ db v

  pub delete_all-IsValid : IsValid (delete_all db)
  unfolding delete_all
  delete_all-IsValid = delete_keys-IsValid _ db v

  pub delete_expired-IsValid : (n : ℤ) (t : Time) → LeavesValid (delete_expired n t db)
  unfolding delete_expired
  delete_expired-IsValid (pos (suc n)) t = delete_keys-IsValid _ db v
  delete_expired-IsValid _ t = delete_keys-IsValid _ db v

  pub expire_at-IsValid : (key : String) (at t : Time) → LeavesValid (expire_at key at t db)
  unfolding expire_at
  expire_at-IsValid key at t = update_keys-IsValid _ _ db (λ k. refl) (λ k. refl) (λ k _ _. refl) v

  pub expire-IsValid : (key : String) (ttl t t' : Time) → LeavesValid (expire key ttl t t' db)
  unfolding expire
  expire-IsValid key ttl t t' = expire_at-IsValid key _ t'

  pub persist-IsValid : (key : String) (t : Time) → LeavesValid (persist key t db)
  unfolding persist
  persist-IsValid key t = update_keys-IsValid _ _ db (λ k. refl) (λ k. refl) (λ k _ _. refl) v
