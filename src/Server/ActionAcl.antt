-- ===== src/Server/ActionAcl.antt =====
-- server/action_acl.py: the allow and deny list for the actions that a payload names. A payload is
-- JSON data. The head of `pending` is its last element, the one that `pop` takes.
pub mod Walk
pub mod Judged
mod Tests
use file_automation.Base.{
  ℕ, zero, suc, ◌+◌, String, str_eq, Bool, true, false, not, ◌&&◌, ◌||◌, Option, none, some, List,
  [], ◌∷◌, ◌++◌, elem, if◌then◌else◌,
}
use file_automation.Base.Json.{
  Json, Items, Fields, null, bool, number, text, array, object, no_items, item, no_fields, field,
}

-- pending.extend(value)
abbrev pub push_items : Items → List Json → List Json
push_items no_items pending = pending
push_items (item j js) pending = push_items js (j ∷ pending)

-- pending.extend(value.keys())
abbrev pub push_keys : Fields → List Json → List Json
push_keys no_fields pending = pending
push_keys (field key j fs) pending = push_keys fs (text key ∷ pending)

-- pending.extend(value.values())
abbrev pub push_values : Fields → List Json → List Json
push_values no_fields pending = pending
push_values (field key j fs) pending = push_values fs (j ∷ pending)

-- the body of the loop: the name that it yields, and what it leaves pending
abbrev pub visit : (String → Bool) → Json → List Json → List String × List Json
visit known (text s) pending = (if known s then s ∷ [] else [], pending)
visit known (object fs) pending = ([], push_values fs (push_keys fs pending))
visit known (array js) pending = ([], push_items js pending)
visit known (null) pending = ([], pending)
visit known (bool b) pending = ([], pending)
visit known (number n) pending = ([], pending)

abbrev pub yield_names : List String → Option (List String) → Option (List String)
yield_names found none = none
yield_names found (some names) = some (found ++ names)

-- the loop of `nested_action_names`; without fuel it is not finished
unfoldable pub walk : (String → Bool) → ℕ → List Json → Option (List String)
walk known fuel [] = some []
walk known zero (j ∷ pending) = none
walk known (suc fuel) (j ∷ pending) =
    yield_names (visit known j pending).0 (walk known fuel (visit known j pending).1)

-- the values and the keys that a value holds, itself included
abbrev mutual
  pub weight : Json → ℕ
  weight (array js) = suc (weight_items js)
  weight (object fs) = suc (weight_fields fs)
  weight (text s) = 1
  weight (null) = 1
  weight (bool b) = 1
  weight (number n) = 1

  pub weight_items : Items → ℕ
  weight_items no_items = 0
  weight_items (item j js) = weight j + weight_items js

  pub weight_fields : Fields → ℕ
  weight_fields no_fields = 0
  weight_fields (field key j fs) = suc (weight j + weight_fields fs)

unfoldable pub nested_action_names : (String → Bool) → Json → Option (List String)
unfolding walk
nested_action_names known arguments = walk known (weight arguments) (arguments ∷ [])

-- payload.get("actions", [])
abbrev pub actions_of : Fields → Json
actions_of no_fields = array no_items
actions_of (field key j fs) = if str_eq key "actions" then j else actions_of fs

abbrev pub entries_of : Json → Items
entries_of (array js) = js
entries_of _ = no_items

abbrev pub payload_entries : Json → Items
payload_entries (object fs) = entries_of (actions_of fs)
payload_entries payload = entries_of payload

-- the names that one entry of a payload is checked for
unfoldable pub entry_names : (String → Bool) → Json → Option (List String)
unfolding nested_action_names
entry_names known (array (item (text name) rest)) =
    yield_names (name ∷ []) (nested_action_names known (array rest))
entry_names known _ = some []

abbrev pub append_names : Option (List String) → Option (List String) → Option (List String)
append_names none later = none
append_names (some names) later = yield_names names later

unfoldable pub names_in : (String → Bool) → Items → Option (List String)
unfolding entry_names
names_in known no_items = some []
names_in known (item j js) = append_names (entry_names known j) (names_in known js)

-- `_iter_names`; `known` are the names in the shared registry
unfoldable pub iter_names : (String → Bool) → Json → Option (List String)
unfolding names_in
iter_names known payload = names_in known (payload_entries payload)

pub record ActionAcl : Type 0 where
  pub allowed : Option (List String)
  pub denied : List String

abbrev pub is_listed : Option (List String) → String → Bool
is_listed none name = true
is_listed (some names) name = elem name names

unfoldable pub is_allowed : ActionAcl → String → Bool
is_allowed acl name = if elem name acl.denied then false else is_listed acl.allowed name

pub data Verdict : Type 0 where
  permitted : Verdict
  not_permitted : String → Verdict
  unfinished : Verdict

unfoldable pub judge : ActionAcl → List String → Verdict
unfolding is_allowed
judge acl [] = permitted
judge acl (name ∷ names) = if not (is_allowed acl name) then not_permitted name else judge acl names

abbrev pub judge_names : ActionAcl → Option (List String) → Verdict
judge_names acl none = unfinished
judge_names acl (some names) = judge acl names

-- `enforce`, where an exception is a verdict
unfoldable pub enforce : ActionAcl → (String → Bool) → Json → Verdict
unfolding iter_names judge
enforce acl known payload = judge_names acl (iter_names known payload)
