-- ===== src/Base/Dicts.antt =====
-- Python's `dict` with text keys: an association list in insertion order. A write to a key that is
-- there keeps its place, one to a new key goes to the end.
use Prim.Native.String.{String}
use mathlib.Core.Path.{◌≡◌, refl}
use mathlib.Core.Bool.{Bool, true, false, ◌||◌}
use mathlib.Core.Option.{Option, none, some}
use mathlib.Core.List.{List, [], ◌∷◌}
use native.Mathlib.Omega.{arith}
use text.Mathlib.Text.{◌==◌ as str_eq}
use text.Mathlib.TextEquality.{eq_iff}
use file_automation.Base.Tests.{if◌then◌else◌}
use file_automation.Base.Lists.{elem}

abbrev pub Dict {ℓ} : Type ℓ → Type ℓ
Dict V = List (String × V)

module _ {ℓ} {V : Type ℓ} where
  -- d.get(k)
  unfoldable pub lookup : String → Dict V → Option V
  lookup k [] = none
  lookup k ((j, v) ∷ d) = if str_eq j k then some v else lookup k d

  -- d[k] = v
  unfoldable pub insert : String → V → Dict V → Dict V
  insert k v [] = (k, v) ∷ []
  insert k v ((j, w) ∷ d) = if str_eq j k then (j, v) ∷ d else (j, w) ∷ insert k v d

  -- d.pop(k, None)
  unfoldable pub remove : String → Dict V → Dict V
  remove k [] = []
  remove k ((j, w) ∷ d) = let rest = remove k d in if str_eq j k then rest else (j, w) ∷ rest

  -- list(d)
  unfoldable pub keys : Dict V → List String
  keys [] = []
  keys ((j, w) ∷ d) = j ∷ keys d

  -- k in d
  unfoldable pub has_key : String → Dict V → Bool
  has_key k [] = false
  has_key k ((j, w) ∷ d) = str_eq j k || has_key k d

  pub lookup-insert :
      (k j : String) (v : V) (d : Dict V)
      → lookup j (insert k v d) ≡ (if str_eq k j then some v else lookup j d)
  unfolding lookup insert
  lookup-insert k j v [] = refl
  lookup-insert k j v ((i, w) ∷ d) =
      ground (arith, eq_iff k j, eq_iff i k, eq_iff i j, lookup-insert k j v d)

  pub lookup-insert_self : (k : String) (v : V) (d : Dict V) → lookup k (insert k v d) ≡ some v
  lookup-insert_self k v d = ground (arith, lookup-insert k k v d, eq_iff k k)

  pub lookup-remove :
      (k j : String) (d : Dict V)
      → lookup j (remove k d) ≡ (if str_eq k j then none else lookup j d)
  unfolding lookup remove
  lookup-remove k j [] = ground arith
  lookup-remove k j ((i, w) ∷ d) =
      ground (arith, eq_iff k j, eq_iff i k, eq_iff i j, lookup-remove k j d)

  pub has_key-insert :
      (k j : String) (v : V) (d : Dict V) → has_key j (insert k v d) ≡ (str_eq k j || has_key j d)
  unfolding has_key insert
  has_key-insert k j v [] = refl
  has_key-insert k j v ((i, w) ∷ d) =
      ground (arith, eq_iff k j, eq_iff i k, eq_iff i j, has_key-insert k j v d)

  pub elem-keys : (k : String) (d : Dict V) → elem k (keys d) ≡ has_key k d
  unfolding keys has_key
  elem-keys k [] = refl
  elem-keys k ((j, w) ∷ d) = ground (arith, elem-keys k d)

  pub has_key_of_lookup :
      (k : String) (d : Dict V) (v : V) → lookup k d ≡ some v → has_key k d ≡ true
  unfolding lookup has_key
  has_key_of_lookup k [] v h = absurd (ground arith)
  has_key_of_lookup k ((j, w) ∷ d) v h = ground (arith, has_key_of_lookup k d v)

  pub lookup_of_has_key :
      (k : String) (d : Dict V) → has_key k d ≡ true → (v : V) × (lookup k d ≡ some v)
  unfolding lookup has_key
  lookup_of_has_key k [] h = absurd (ground arith)
  lookup_of_has_key k ((j, w) ∷ d) h = go (str_eq j k) refl (lookup_of_has_key k d)
    where
      go :
          (b : Bool)
          → str_eq j k ≡ b
          → (has_key k d ≡ true → (v : V) × (lookup k d ≡ some v))
          → (v : V) × ((if b then some w else lookup k d) ≡ some v)
      go true e rec = (w, refl)
      go false e rec = rec (ground arith)

  pub lookup_of_not_has_key : (k : String) (d : Dict V) → has_key k d ≡ false → lookup k d ≡ none
  unfolding lookup has_key
  lookup_of_not_has_key k [] h = refl
  lookup_of_not_has_key k ((j, w) ∷ d) h = ground (arith, lookup_of_not_has_key k d)

-- a mapping that is read at keys that it has, as a function: d[k] = v
abbrev pub update {ℓ} : {A : Type ℓ} → (String → A) → String → A → String → A
update f k v j = if str_eq k j then v else f j
