-- ===== src/Rzset/Samples.antt =====
-- Data for the tests of the sorted sets: a driver that orders elements by their code points and
-- scores by their numbers, and tables with two sets.
use Prim.Native.Char.{code}
use text.Mathlib.TextEquality.{Char-path}
use Prim.Native.String.{[] as empty, ◌∷◌ as char}
use redka.Base.{
  ℕ, ◌+◌, pos, String, Bool, true, false, ◌||◌, Option, none, some, List, [], ◌∷◌, ◌≡◌, refl, arith,
  ltb, leb, ◌==◌, if◌then◌else◌,
}
use redka.Core.{
  Key, AnyValue, str, int, float, bool, bytes, nil_bytes, other, itoa, type_sorted_set, Float64,
}
use redka.Samples.{nan}
use redka.Schema.{Db}
use redka.Schema.Valid.{IsValid}
use redka.Rzset.Driver.{SetDriver}

-- the order of the code points, a shorter text first
unfoldable pub text_le : String → String → Bool
text_le empty t = true
text_le (char c s) empty = false
text_le (char c s) (char d t) =
    let rest = text_le s t in
    if ltb (code c) (code d) then true else if ltb (code d) (code c) then false else rest

pub text_total : (s t : String) → (text_le s t || text_le t s) ≡ true
unfolding text_le
text_total empty empty = refl
text_total empty (char d t) = refl
text_total (char c s) empty = refl
text_total (char c s) (char d t) = ground (arith, text_total s t)

pub text_antisym : (s t : String) → text_le s t ≡ true → text_le t s ≡ true → s ≡ t
unfolding text_le
text_antisym empty empty p q = refl
text_antisym empty (char d t) p q = cc
text_antisym (char c s) empty p q = cc
text_antisym (char c s) (char d t) p q =
    let same : code c ≡ code d = ground (arith, p, q) in
    let rest : s ≡ t = text_antisym s t (ground (arith, p, same)) (ground (arith, q, same)) in
    cc (Char-path c d same, rest)

pub text_trans : (s t u : String) → text_le s t ≡ true → text_le t u ≡ true → text_le s u ≡ true
unfolding text_le
text_trans empty t u p q = refl
text_trans (char c s) empty u p q = cc
text_trans (char c s) (char d t) empty p q = cc
text_trans (char c s) (char d t) (char e u) p q = ground (arith, text_trans s t u)

pub leb_total : (x y : ℕ) → (leb x y || leb y x) ≡ true
leb_total x y = ground arith

pub leb_trans : (x y z : ℕ) → leb x y ≡ true → leb y z ≡ true → leb x z ≡ true
leb_trans x y z p q = ground arith

abbrev code_of : AnyValue → Option String
code_of (str s) = some s
code_of (int n) = some (itoa n)
code_of (float f) = if f == nan then none else some "0"
code_of (bool b) = some "1"
code_of (bytes s) = some s
code_of nil_bytes = none
code_of other = none

abbrev total_of : List Float64 → Option Float64
total_of [] = none
total_of (x ∷ xs) = elim (total_of xs) [ none ↦ some x | some y ↦ some (x + y) ]

abbrev pub set_driver : SetDriver
set_driver = record {
  elem_code = code_of;
  elem_bytes = λ s. s;
  elem_glob = λ pattern s. true;
  score_of = λ x. if x == nan then none else some x;
  add_score = λ x y. some (x + y);
  aggregate = λ a xs. total_of xs;
  elem_le = text_le;
  score_le = leb;
  elem_total = text_total;
  elem_trans = text_trans;
  elem_antisym = text_antisym;
  score_total = leb_total;
  score_trans = leb_trans;
}

abbrev pub race_key : Key
race_key = record {
  id = 1;
  key = "race";
  type_id = type_sorted_set;
  version = 1;
  etime = none;
  mtime = pos 0;
}

abbrev pub old_race_key : Key
old_race_key = record {
  id = 2;
  key = "old";
  type_id = type_sorted_set;
  version = 1;
  etime = some (pos 100);
  mtime = pos 0;
}

-- two sets, of which the second expires at 100 milliseconds
abbrev pub races : Db
races = record {
  keys = race_key ∷ old_race_key ∷ [];
  strings = [];
  hashes = [];
  zsets =
      record { rowid = 1; key_id = 1; elem = "ann"; score = 20 }
      ∷ record { rowid = 2; key_id = 1; elem = "bob"; score = 10 }
      ∷ record { rowid = 3; key_id = 2; elem = "bob"; score = 30 }
      ∷ record { rowid = 4; key_id = 1; elem = "cyd"; score = 20 }
      ∷ [];
}

pub races-IsValid : IsValid races
races-IsValid = record {
  keys_unique = (refl, (refl, tt));
  ids_unique = (refl, (refl, tt));
  strings_unique = tt;
  hashes_unique = tt;
  zsets_unique = (refl, (refl, (refl, (refl, tt))));
  strings_owned = tt;
  hashes_owned = tt;
  zsets_owned = (refl, (refl, (refl, (refl, tt))));
}
