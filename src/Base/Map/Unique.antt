-- ===== src/Base/Map/Unique.antt =====
-- Maps that hold each key once, as `std::unordered_map` does: what iteration sees is what `find` sees.
use mathlib.Core.Path.{◌≡◌, refl}
use mathlib.Core.Logic.{◌⊎◌, inl, inr}
use mathlib.Core.Bool.{Bool, false, ◌||◌}
use mathlib.Core.Option.{Option, none, some}
use mathlib.Core.List.{List, [], ◌∷◌}
use native.Mathlib.Omega.{arith}
use zero_lan_com.Base.Tests.{if◌then◌else◌}
use zero_lan_com.Base.Text.{Str, str_eq, str_eq_iff}
use zero_lan_com.Base.Map.{Map, find, insert, erase, find-insert, find-erase}

-- Membership, with the place kept.
abbrev pub Has : {A : Type 0} → A → List A → Type 0
Has a [] = ⊥
Has a (x ∷ xs) = (a ≡ x) ⊎ Has a xs

unfoldable pub contains : Str → List Str → Bool
contains k [] = false
contains k (j ∷ js) = str_eq j k || contains k js

module _ {ℓ} {V : Type ℓ} where
  abbrev pub Unique : Map V → Type ℓ
  Unique [] = Unit
  Unique ((k, v) ∷ m) = (find k m ≡ none) × Unique m

  pub insert-Unique : (k : Str) (v : V) (m : Map V) → Unique m → Unique (insert k v m)
  unfolding insert find
  insert-Unique k v [] u = (refl, tt)
  insert-Unique k v ((j, w) ∷ m) u =
      ground (arith, str_eq_iff j k, str_eq_iff k j, find-insert k j v m, insert-Unique k v m u.1)

  pub erase-Unique : (k : Str) (m : Map V) → Unique m → Unique (erase k m)
  unfolding erase find
  erase-Unique k [] u = tt
  erase-Unique k ((j, w) ∷ m) u =
      ground (arith, find-erase k j m, str_eq_iff k j, str_eq_iff j k, erase-Unique k m u.1)

  -- Erasing a list of keys, one after the other.
  unfoldable pub erase_all : List Str → Map V → Map V
  erase_all [] m = m
  erase_all (k ∷ ks) m = erase_all ks (erase k m)

  pub find-erase_all :
      (ks : List Str) (j : Str) (m : Map V)
      → find j (erase_all ks m) ≡ (if contains j ks then none else find j m)
  unfolding erase_all contains
  find-erase_all [] j m = refl
  find-erase_all (k ∷ ks) j m = ground (arith, find-erase_all ks j (erase k m), find-erase k j m)

  pub erase_all-Unique : (ks : List Str) (m : Map V) → Unique m → Unique (erase_all ks m)
  unfolding erase_all
  erase_all-Unique [] m u = u
  erase_all-Unique (k ∷ ks) m u = erase_all-Unique ks (erase k m) (erase-Unique k m u)

module _ {V : Type 0} where
  -- An entry of the list is found under its key.
  pub find_of_Has : (k : Str) (v : V) (m : Map V) → Unique m → Has (k, v) m → find k m ≡ some v
  unfolding find
  find_of_Has k v [] u h = absurd h
  find_of_Has k v ((j, w) ∷ m) u (inl e) = ground (arith, str_eq_iff j k)
  find_of_Has k v ((j, w) ∷ m) u (inr h) = ground (arith, str_eq_iff j k, find_of_Has k v m u.1 h)

  pub Has-of_find : (k : Str) (v : V) (m : Map V) → find k m ≡ some v → Has (k, v) m
  unfolding find
  Has-of_find k v [] e = cc
  Has-of_find k v ((j, w) ∷ m) e = ground (arith, str_eq_iff j k, Has-of_find k v m)

abbrev pub Distinct : List Str → Type 0
Distinct [] = Unit
Distinct (k ∷ ks) = (contains k ks ≡ false) × Distinct ks

module _ {ℓ} {V : Type ℓ} (test : V → Bool) where
  -- The keys whose value passes the test, in the order of iteration.
  unfoldable pub keys_where : Map V → List Str
  keys_where [] = []
  keys_where ((k, v) ∷ m) = let rest = keys_where m in if test v then k ∷ rest else rest

  abbrev pub passes : Option V → Bool
  passes none = false
  passes (some v) = test v

  pub contains-keys_where :
      (j : Str) (m : Map V) → Unique m → contains j (keys_where m) ≡ passes (find j m)
  unfolding keys_where contains find
  contains-keys_where j [] u = refl
  contains-keys_where j ((k, v) ∷ m) u = ground (arith, str_eq_iff k j, contains-keys_where j m u.1)

  pub keys_where-Distinct : (m : Map V) → Unique m → Distinct (keys_where m)
  unfolding keys_where contains
  keys_where-Distinct [] u = tt
  keys_where-Distinct ((k, v) ∷ m) u =
      ground (arith, contains-keys_where k m u.1, keys_where-Distinct m u.1)
