-- ===== src/Prelude/Maps.antt =====
-- A Go `map[string]V` as an association list; a key is stored once, where it was first put.
use Prim.Native.String.{String}
use mathlib.Core.Path.{◌≡◌, refl}
use mathlib.Core.Option.{Option, none, some}
use mathlib.Core.List.{List, [], ◌∷◌}
use native.Mathlib.Omega.{arith}
use save_any_bot.Prelude.Tests.{str_eq, str_eq_iff, str_eq_refl, if◌then◌else◌}

abbrev pub StrMap {ℓ} : Type ℓ → Type ℓ
StrMap V = List (String × V)

module _ {ℓ} {V : Type ℓ} where
  unfoldable pub get : String → StrMap V → Option V
  get k [] = none
  get k ((j, v) ∷ m) = if str_eq j k then some v else get k m

  unfoldable pub put : String → V → StrMap V → StrMap V
  put k v [] = (k, v) ∷ []
  put k v ((j, w) ∷ m) = if str_eq j k then (k, v) ∷ m else (j, w) ∷ put k v m

  unfoldable pub delete : String → StrMap V → StrMap V
  delete k [] = []
  delete k ((j, w) ∷ m) = let rest = delete k m in if str_eq j k then rest else (j, w) ∷ rest

  pub get-put :
      (j k : String) (v : V) (m : StrMap V)
      → get j (put k v m) ≡ (if str_eq k j then some v else get j m)
  unfolding get put
  get-put j k v [] = refl
  get-put j k v ((i, w) ∷ m) =
      ground (arith, str_eq_iff k j, str_eq_iff i k, str_eq_iff i j, get-put j k v m)

  pub get-delete :
      (j k : String) (m : StrMap V) → get j (delete k m) ≡ (if str_eq k j then none else get j m)
  unfolding get delete
  get-delete j k [] = ground arith
  get-delete j k ((i, w) ∷ m) =
      ground (arith, str_eq_iff k j, str_eq_iff i k, str_eq_iff i j, get-delete j k m)

  pub get-put_self : (k : String) (v : V) (m : StrMap V) → get k (put k v m) ≡ some v
  get-put_self k v m = ground (arith, get-put k k v m, str_eq_refl k)

  -- No key is stored twice.
  abbrev pub UniqueKeys : StrMap V → Type ℓ
  UniqueKeys [] = Unit
  UniqueKeys ((k, v) ∷ m) = (get k m ≡ none) × UniqueKeys m

  pub put-UniqueKeys : (k : String) (v : V) (m : StrMap V) → UniqueKeys m → UniqueKeys (put k v m)
  unfolding put get
  put-UniqueKeys k v [] u = (refl, tt)
  put-UniqueKeys k v ((j, w) ∷ m) u =
      ground (arith, str_eq_iff j k, str_eq_iff k j, get-put j k v m, put-UniqueKeys k v m u.1)

  pub delete-UniqueKeys : (k : String) (m : StrMap V) → UniqueKeys m → UniqueKeys (delete k m)
  unfolding delete
  delete-UniqueKeys k [] u = tt
  delete-UniqueKeys k ((j, w) ∷ m) u = ground (arith, get-delete j k m, delete-UniqueKeys k m u.1)

pub ruleset map_laws = (arith, get-put, get-delete, str_eq_iff)
