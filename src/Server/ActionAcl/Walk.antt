-- ===== src/Server/ActionAcl/Walk.antt =====
-- server/action_acl.py: the walk through the arguments ends, and finds every known name.
use file_automation.Base.{
  ℕ, zero, suc, ◌+◌, ◌≤◌, String, str_eq, eq_iff, Bool, false, ◌&&◌, ◌||◌, Option, some, List, [],
  ◌∷◌, ◌++◌, elem, elem-append, ◌≡◌, refl, arith,
}
use file_automation.Base.Json.{
  Json, Items, Fields, null, bool, number, text, array, object, no_items, item, no_fields, field,
}
use file_automation.Server.ActionAcl.{
  push_items, push_keys, push_values, visit, yield_names, walk, weight, weight_items, weight_fields,
  nested_action_names,
}

-- whether a value holds a text at any depth: as an element, a mapping's value or its key
abbrev mutual
  pub holds : String → Json → Bool
  holds name (text s) = str_eq s name
  holds name (array js) = holds_in name js
  holds name (object fs) = holds_at name fs
  holds name (null) = false
  holds name (bool b) = false
  holds name (number n) = false

  pub holds_in : String → Items → Bool
  holds_in name no_items = false
  holds_in name (item j js) = holds name j || holds_in name js

  pub holds_at : String → Fields → Bool
  holds_at name no_fields = false
  holds_at name (field key j fs) = str_eq key name || holds name j || holds_at name fs

abbrev pub held : String → List Json → Bool
held name [] = false
held name (j ∷ js) = holds name j || held name js

abbrev pub total : List Json → ℕ
total [] = 0
total (j ∷ js) = weight j + total js

total-push_items :
    (js : Items) (p : List Json) → total (push_items js p) ≡ weight_items js + total p
total-push_items no_items p = omega arith
total-push_items (item j js) p = omega (arith, total-push_items js (j ∷ p))

held-push_items :
    (name : String) (js : Items) (p : List Json)
    → held name (push_items js p) ≡ (holds_in name js || held name p)
held-push_items name no_items p = refl
held-push_items name (item j js) p = ground (arith, held-push_items name js (j ∷ p))

total-push_fields :
    (fs : Fields) (p q : List Json)
    → total (push_values fs q) + total (push_keys fs p) ≡ weight_fields fs + total p + total q
total-push_fields no_fields p q = omega arith
total-push_fields (field key j fs) p q = omega (arith, total-push_fields fs (text key ∷ p) (j ∷ q))

total-push_values :
    (fs : Fields) (p : List Json)
    → total (push_values fs (push_keys fs p)) ≡ weight_fields fs + total p
total-push_values fs p = omega (arith, total-push_fields fs p (push_keys fs p))

abbrev key_held : String → Fields → Bool
key_held name no_fields = false
key_held name (field key j fs) = str_eq key name || key_held name fs

abbrev value_held : String → Fields → Bool
value_held name no_fields = false
value_held name (field key j fs) = holds name j || value_held name fs

held-push_keys :
    (name : String) (fs : Fields) (p : List Json)
    → held name (push_keys fs p) ≡ (key_held name fs || held name p)
held-push_keys name no_fields p = refl
held-push_keys name (field key j fs) p = ground (arith, held-push_keys name fs (text key ∷ p))

held-push_each :
    (name : String) (fs : Fields) (p : List Json)
    → held name (push_values fs p) ≡ (value_held name fs || held name p)
held-push_each name no_fields p = refl
held-push_each name (field key j fs) p = ground (arith, held-push_each name fs (j ∷ p))

holds_at-split :
    (name : String) (fs : Fields) → holds_at name fs ≡ (key_held name fs || value_held name fs)
holds_at-split name no_fields = refl
holds_at-split name (field key j fs) = ground (arith, holds_at-split name fs)

held-push_values :
    (name : String) (fs : Fields) (p : List Json)
    → held name (push_values fs (push_keys fs p)) ≡ (holds_at name fs || held name p)
held-push_values name fs p = ground (
  arith,
  held-push_each name fs (push_keys fs p),
  held-push_keys name fs p,
  holds_at-split name fs,
)

module _ (known : String → Bool) where
  -- what the loop has found: the known names, and no others, of what was pending
  abbrev Finds : List Json → Option (List String) → Type 0
  Finds pending found =
      (names : List String) × (found ≡ some names)
      × ((name : String) → elem name names ≡ (known name && held name pending))

  visited :
      (name : String) (j : Json) (p : List Json)
      → (known name && held name (j ∷ p))
        ≡ (elem name (visit known j p).0 || (known name && held name (visit known j p).1))
  visited name (text s) p = ground (arith, eq_iff s name)
  visited name (object fs) p = ground (arith, held-push_values name fs p)
  visited name (array js) p = ground (arith, held-push_items name js p)
  visited name (null) p = refl
  visited name (bool b) p = refl
  visited name (number n) p = refl

  total-visit : (j : Json) (p : List Json) → total (visit known j p).1 + 1 ≡ weight j + total p
  total-visit (text s) p = omega arith
  total-visit (object fs) p = omega (arith, total-push_values fs p)
  total-visit (array js) p = omega (arith, total-push_items js p)
  total-visit (null) p = omega arith
  total-visit (bool b) p = omega arith
  total-visit (number n) p = omega arith

  positive : (j : Json) → 1 ≤ weight j
  positive (text s) = omega arith
  positive (object fs) = omega arith
  positive (array js) = omega arith
  positive (null) = omega arith
  positive (bool b) = omega arith
  positive (number n) = omega arith

  yields-Finds :
      (j : Json) (p : List Json) (rest : Option (List String))
      → Finds (visit known j p).1 rest
      → Finds (j ∷ p) (yield_names (visit known j p).0 rest)
  yields-Finds j p rest (names, e, found) = (
    (visit known j p).0 ++ names,
    rw e refl,
    λ name. rw (elem-append name (visit known j p).0 names, found name, visited name j p) refl,
  )

  walk-Finds : (fuel : ℕ) (p : List Json) → total p ≤ fuel → Finds p (walk known fuel p)
  unfolding walk
  walk-Finds fuel [] h = ([], refl, λ name. ground arith)
  walk-Finds zero (j ∷ p) h = absurd (omega (arith, h, positive j))
  walk-Finds (suc fuel) (j ∷ p) h =
      yields-Finds j p _ (walk-Finds fuel (visit known j p).1 (omega (arith, h, total-visit j p)))

  -- The walk through the arguments of an action ends, and a text is among the names that it finds
  -- exactly when it is known and stands somewhere in them, at any depth, as an element, as a
  -- mapping's value or as its key.
  pub nested_action_names_complete :
      (j : Json)
      → (names : List String) × (nested_action_names known j ≡ some names)
        × ((name : String) → elem name names ≡ (known name && holds name j))
  unfolding nested_action_names
  nested_action_names_complete j =
      let (names, e, found) = walk-Finds (weight j) (j ∷ []) (omega arith) in
      (names, e, λ name. ground (arith, found name))
