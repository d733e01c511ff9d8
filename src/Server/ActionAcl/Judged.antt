-- ===== src/Server/ActionAcl/Judged.antt =====
-- server/action_acl.py: what `enforce` lets pass and what it refuses.
use file_automation.Base.{
  String, str_eq, eq_iff, Bool, true, false, ◌&&◌, ◌||◌, Option, none, some, List, [], ◌∷◌, ◌++◌,
  elem, elem-append, ◌≡◌, refl, arith, inl, inr, ◌⊎◌, Bool-cases,
}
use file_automation.Base.Json.{Json, Items, null, bool, number, text, array, object, no_items, item}
use file_automation.Server.ActionAcl.{
  payload_entries, entry_names, append_names, names_in, iter_names, ActionAcl, is_listed,
  is_allowed, Verdict, permitted, not_permitted, judge, enforce,
}
use file_automation.Server.ActionAcl.Walk.{holds_in, nested_action_names_complete}

-- a payload's entry is to be checked for a name: it is the action that the entry calls, or a known one
-- in its arguments
abbrev pub calls : (String → Bool) → String → Json → Bool
calls known name (array (item (text action) arguments)) =
    str_eq action name || (known name && holds_in name arguments)
calls known name _ = false

abbrev pub calls_any : (String → Bool) → String → Items → Bool
calls_any known name no_items = false
calls_any known name (item j js) = calls known name j || calls_any known name js

-- the policy, in words: not on the deny list, and on the allow list where there is one
abbrev pub IsPermitted : ActionAcl → String → Type 0
IsPermitted acl name =
    (elem name acl.denied ≡ false)
    × ((names : List String) → acl.allowed ≡ some names → elem name names ≡ true)

abbrev pub IsForbidden : ActionAcl → String → Type 0
IsForbidden acl name =
    (elem name acl.denied ≡ true)
    ⊎ ((names : List String) × (acl.allowed ≡ some names) × (elem name names ≡ false))

-- The specification: a payload passes where every name that it calls for is permitted, and is
-- refused for a name that it calls for and that is forbidden.
pub data Judges (acl : ActionAcl) (known : String → Bool) (payload : Json) : Verdict → Type 0 where
  passes :
      ((name : String)
        → calls_any known name (payload_entries payload) ≡ true
        → IsPermitted acl name)
      → Judges acl known payload permitted
  refuses :
      (name : String)
      → calls_any known name (payload_entries payload) ≡ true
      → IsForbidden acl name
      → Judges acl known payload (not_permitted name)

module _ (known : String → Bool) where
  abbrev Names : (String → Bool) → Option (List String) → Type 0
  Names wanted found =
      (names : List String) × (found ≡ some names)
      × ((name : String) → elem name names ≡ wanted name)

  entry_names-Names : (j : Json) → Names (λ name. calls known name j) (entry_names known j)
  unfolding entry_names
  entry_names-Names (array (item (text action) rest)) =
      let (names, e, found) = nested_action_names_complete known (array rest) in
      (action ∷ names, rw e refl, λ name. ground (arith, found name))
  entry_names-Names (array no_items) = ([], refl, λ name. refl)
  entry_names-Names (array (item (array js) rest)) = ([], refl, λ name. refl)
  entry_names-Names (array (item (object fs) rest)) = ([], refl, λ name. refl)
  entry_names-Names (array (item (null) rest)) = ([], refl, λ name. refl)
  entry_names-Names (array (item (bool b) rest)) = ([], refl, λ name. refl)
  entry_names-Names (array (item (number n) rest)) = ([], refl, λ name. refl)
  entry_names-Names (object fs) = ([], refl, λ name. refl)
  entry_names-Names (text s) = ([], refl, λ name. refl)
  entry_names-Names (null) = ([], refl, λ name. refl)
  entry_names-Names (bool b) = ([], refl, λ name. refl)
  entry_names-Names (number n) = ([], refl, λ name. refl)

  append-Names :
      (p q : String → Bool) (a b : Option (List String))
      → Names p a
      → Names q b
      → Names (λ name. p name || q name) (append_names a b)
  append-Names p q a b (xs, e, f) (ys, e', g) =
      (xs ++ ys, rw (e, e') refl, λ name. rw (elem-append name xs ys, f name, g name) refl)

  names_in-Names : (js : Items) → Names (λ name. calls_any known name js) (names_in known js)
  unfolding names_in
  names_in-Names no_items = ([], refl, λ name. refl)
  names_in-Names (item j js) =
      append-Names (λ name. calls known name j) (λ name. calls_any known name js) _ _
        (entry_names-Names j) (names_in-Names js)

is_listed-elem :
    (o : Option (List String)) (name : String) (names : List String)
    → is_listed o name ≡ true
    → o ≡ some names
    → elem name names ≡ true
is_listed-elem none name names h e = absurd (ground arith)
is_listed-elem (some xs) name names h e = ground arith

is_allowed-IsPermitted :
    (acl : ActionAcl) (name : String) → is_allowed acl name ≡ true → IsPermitted acl name
unfolding is_allowed
is_allowed-IsPermitted acl name h =
    (ground arith, λ names e. is_listed-elem acl.allowed name names (ground arith) e)

listed-IsForbidden :
    (acl : ActionAcl) (name : String) (o : Option (List String))
    → acl.allowed ≡ o
    → is_listed o name ≡ false
    → IsForbidden acl name
listed-IsForbidden acl name none e h = absurd (ground arith)
listed-IsForbidden acl name (some names) e h = inr (names, e, h)

is_allowed-IsForbidden :
    (acl : ActionAcl) (name : String) → is_allowed acl name ≡ false → IsForbidden acl name
unfolding is_allowed
is_allowed-IsForbidden acl name h = elim (Bool-cases (elem name acl.denied)) [
  | inl listed ↦ inl listed
  | inr free ↦ listed-IsForbidden acl name acl.allowed refl (ground arith)
]

data Judged (acl : ActionAcl) (names : List String) : Verdict → Type 0 where
  accepted :
      ((name : String) → elem name names ≡ true → is_allowed acl name ≡ true)
      → Judged acl names permitted
  rejected :
      (name : String)
      → elem name names ≡ true
      → is_allowed acl name ≡ false
      → Judged acl names (not_permitted name)

later-Judged :
    (acl : ActionAcl) (x : String) (xs : List String) (v : Verdict)
    → is_allowed acl x ≡ true
    → Judged acl xs v
    → Judged acl (x ∷ xs) v
later-Judged acl x xs _ h (Judged.accepted all) =
    Judged.accepted (λ name m. ground (arith, h, all name, eq_iff x name))
later-Judged acl x xs _ h (Judged.rejected name m deny) = Judged.rejected name (ground arith) deny

judge-Judged : (acl : ActionAcl) (names : List String) → Judged acl names (judge acl names)
unfolding judge
judge-Judged acl [] = Judged.accepted (λ name m. absurd (ground arith))
judge-Judged acl (x ∷ xs) = elim (Bool-cases (is_allowed acl x)) [
  | inl fine ↦ rw fine (later-Judged acl x xs _ fine (judge-Judged acl xs))
  | inr deny ↦ rw deny (Judged.rejected x (ground (arith, eq_iff x x)) deny)
]

Judged-Judges :
    (acl : ActionAcl) (known : String → Bool) (payload : Json) (names : List String) (v : Verdict)
    → ((name : String) → elem name names ≡ calls_any known name (payload_entries payload))
    → Judged acl names v
    → Judges acl known payload v
Judged-Judges acl known payload names _ f (Judged.accepted all) =
    Judges.passes (λ name m. is_allowed-IsPermitted acl name (all name (ground (arith, f name))))
Judged-Judges acl known payload names _ f (Judged.rejected name m deny) =
    Judges.refuses name (ground (arith, f name)) (is_allowed-IsForbidden acl name deny)

-- `enforce` always comes to a verdict, and to the right one: it passes a payload exactly when every
-- action that an entry calls, and every registered name at any depth of its arguments, is permitted,
-- and otherwise it refuses it for a name that is there and that is forbidden.
pub enforce-Judges :
    (acl : ActionAcl) (known : String → Bool) (payload : Json)
    → Judges acl known payload (enforce acl known payload)
unfolding enforce iter_names
enforce-Judges acl known payload =
    let (names, e, found) = names_in-Names known (payload_entries payload) in
    rw e (Judged-Judges acl known payload names _ found (judge-Judged acl names))
