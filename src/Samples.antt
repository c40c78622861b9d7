-- ===== src/Samples.antt =====
-- Data for the tests: a driver that keeps what schema.sql and the driver promise, and tables with a
-- string, a hash and a string that expires at 100 milliseconds.
use redka.Base.{◌==◌, if◌then◌else◌, Option, ℤ, pos, true, none, some, [], ◌∷◌, refl}
use redka.Core.{
  Key, Value, AnyValue, str, int, float, bool, bytes, nil_bytes, Float64, other, Driver, itoa,
  type_string, type_hash,
}
use redka.Schema.{Db}
use redka.Schema.Valid.{IsValid}

-- the float whose bits are all set is a NaN
abbrev pub nan : Float64
nan = 18446744073709551615

abbrev stored_text : AnyValue → Option Value
stored_text (str s) = some s
stored_text (int n) = some (itoa n)
stored_text (float f) = if f == nan then none else some "0"
stored_text (bool b) = some "1"
stored_text (bytes s) = some s
stored_text nil_bytes = none
stored_text other = none

abbrev pub sample_driver : Driver
sample_driver = record {
  stored = stored_text;
  glob = λ pattern s. true;
  parse_float = λ s. some 0;
  format_float = λ f. "0";
  add_float = λ a b. a;
  stored_str = λ s. refl;
  stored_bytes = λ s. refl;
  stored_nil = refl;
  stored_int = λ n. refl;
}

abbrev pub name_key : Key
name_key = record {
  id = 1;
  key = "name";
  type_id = type_string;
  version = 1;
  etime = none;
  mtime = pos 0;
}

abbrev pub cart_key : Key
cart_key = record {
  id = 2;
  key = "cart";
  type_id = type_hash;
  version = 1;
  etime = none;
  mtime = pos 0;
}

abbrev pub old_key : Key
old_key = record {
  id = 3;
  key = "old";
  type_id = type_string;
  version = 1;
  etime = some (pos 100);
  mtime = pos 0;
}

abbrev pub shop : Db
shop = record {
  keys = name_key ∷ cart_key ∷ old_key ∷ [];
  strings = record { key_id = 1; value = "alice" } ∷ record { key_id = 3; value = "7" } ∷ [];
  hashes = record { rowid = 1; key_id = 2; field = "apple"; value = "3" } ∷ [];
  zsets = [];
}

pub shop-IsValid : IsValid shop
shop-IsValid = record {
  keys_unique = (refl, (refl, (refl, tt)));
  ids_unique = (refl, (refl, (refl, tt)));
  strings_unique = (refl, (refl, tt));
  hashes_unique = (refl, tt);
  zsets_unique = tt;
  strings_owned = (refl, (refl, tt));
  hashes_owned = (refl, tt);
  zsets_owned = tt;
}

-- 50 milliseconds after the epoch, and 200
abbrev pub early : ℤ
early = pos 50000000

abbrev pub late : ℤ
late = pos 200000000

-- tables with a hash that expires at 100 milliseconds
abbrev pub stale_key : Key
stale_key = record {
  id = 1;
  key = "stale";
  type_id = type_hash;
  version = 1;
  etime = some (pos 100);
  mtime = pos 0;
}

abbrev pub stale : Db
stale = record {
  keys = stale_key ∷ [];
  strings = [];
  hashes = record { rowid = 1; key_id = 1; field = "apple"; value = "3" } ∷ [];
  zsets = [];
}

pub stale-IsValid : IsValid stale
stale-IsValid = record {
  keys_unique = (refl, tt);
  ids_unique = (refl, tt);
  strings_unique = tt;
  hashes_unique = (refl, tt);
  zsets_unique = tt;
  strings_owned = tt;
  hashes_owned = (refl, tt);
  zsets_owned = tt;
}
