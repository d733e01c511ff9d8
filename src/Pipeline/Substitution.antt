-- ===== src/Pipeline/Substitution.antt =====
-- pipeline/substitution.py: the placeholders `${params.<name>}` and `${tasks.<id>.result}`. The
-- paths in front of the findings are left out. A value is a text, a list, a mapping or any other
-- object; tuples are not modelled.
pub mod Render
pub mod Accepted
mod Tests
use Prim.Native.Char.{Char, code}
use Prim.Native.String.{◌++◌ as text_append}
use mathlib.Core.Option
use file_automation.Base.{
  ℕ, zero, suc, ◌+◌, ◌-◌, String, str_eq, Bool, true, false, not, ◌&&◌, ◌||◌, Option, none, some,
  List, [], ◌∷◌, ◌++◌, elem, ltb, leb, ◌==◌, if◌then◌else◌, Dict, has_key,
}

mutual
  pub data Value (V : Type 0) : Type 0 where
    text : String → Value V
    list : Values V → Value V
    mapping : Entries V → Value V
    other : V → Value V

  pub data Values (V : Type 0) : Type 0 where
    no_values : Values V
    value : Value V → Values V → Values V

  pub data Entries (V : Type 0) : Type 0 where
    no_entries : Entries V
    entry : String → Value V → Entries V → Entries V

abbrev pub between : ℕ → ℕ → ℕ → Bool
between low high c = leb low c && leb c high

-- what `\s` matches
abbrev pub is_space : ℕ → Bool
is_space c =
    between 9 13 c
    || between 28 32 c
    || (c == 133)
    || (c == 160)
    || (c == 5760)
    || between 8192 8202 c
    || between 8232 8233 c
    || (c == 8239)
    || (c == 8287)
    || (c == 12288)

-- [^\s.${}]
abbrev pub is_name_char : ℕ → Bool
is_name_char c = not (is_space c || (c == 46) || (c == 36) || (c == 123) || (c == 125))

abbrev pub all_name_chars : String → Bool
all_name_chars String.[] = true
all_name_chars (String.◌∷◌ c s) = is_name_char (code c) && all_name_chars s

unfoldable pub is_name : String → Bool
is_name s = not (str_eq s "") && all_name_chars s

pub data Kind : Type 0 where
  params tasks : Kind

-- a match of `_PLACEHOLDER`: its two groups
pub record Match : Type 0 where
  pub kind : Kind
  pub body : String

pub record Reference : Type 0 where
  pub kind : Kind
  pub name : Option String
  pub text : String
  pub whole : Bool

abbrev pub opening : Kind → String
opening params = "${params."
opening tasks = "${tasks."

abbrev pub written : Match → String
written m = text_append (opening m.kind) (text_append m.body "}")

abbrev pub size : String → ℕ
size String.[] = 0
size (String.◌∷◌ c s) = suc (size s)

abbrev pub drop_prefix : String → String → Option String
drop_prefix String.[] s = some s
drop_prefix (String.◌∷◌ p ps) String.[] = none
drop_prefix (String.◌∷◌ p ps) (String.◌∷◌ c s) =
    let rest = drop_prefix ps s in if code p == code c then rest else none

abbrev pub add_char : Char → Option String → Option String
add_char c none = none
add_char c (some s) = some (String.◌∷◌ c s)

-- ([^}]*)\}
abbrev pub body_of : String → Option String
body_of String.[] = none
body_of (String.◌∷◌ c s) =
    let rest = body_of s in if code c == 125 then some "" else add_char c rest

abbrev pub match_kind : Kind → Option String → Option Match
match_kind kind none = none
match_kind kind (some rest) =
    Option.map (λ body. record { kind = kind; body = body }) (body_of rest)

abbrev pub either : Option Match → Option Match → Option Match
either none m = m
either (some m) next = some m

-- a match that begins where the text does
unfoldable pub match_at : String → Option Match
match_at s =
    either (match_kind params (drop_prefix (opening params) s))
      (match_kind tasks (drop_prefix (opening tasks) s))

-- A text as `finditer` and `sub` go through it: characters outside the matches, and matches.
pub data Piece : Type 0 where
  literal : Char → Piece
  placeholder : Match → Piece

-- `skip` characters belong to the last match
unfoldable pub pieces : ℕ → String → List Piece
unfolding match_at
pieces skip String.[] = []
pieces (suc skip) (String.◌∷◌ c s) = pieces skip s
pieces zero (String.◌∷◌ c s) = elim (match_at (String.◌∷◌ c s)) [
  | none ↦ literal c ∷ pieces zero s
  | some m ↦ placeholder m ∷ pieces (size (written m) - 1) s
]

-- body[: -len(".result")] if body.endswith(".result") else ""
abbrev pub before_suffix : String → Option String
before_suffix String.[] = none
before_suffix (String.◌∷◌ c s) =
    let rest = before_suffix s in
    if str_eq (String.◌∷◌ c s) ".result" then some "" else add_char c rest

abbrev pub or_blank : Option String → String
or_blank none = ""
or_blank (some s) = s

abbrev pub named_as : Kind → String → String
named_as params body = body
named_as tasks body = or_blank (before_suffix body)

abbrev pub named : Match → String
named m = named_as m.kind m.body

-- `_reference`
unfoldable pub reference : Match → Bool → Reference
unfolding is_name
reference m whole = record {
  kind = m.kind;
  name = (if is_name (named m) then some (named m) else none);
  text = written m;
  whole = whole;
}

abbrev pub is_whole : List Piece → Bool
is_whole (placeholder m ∷ []) = true
is_whole _ = false

abbrev pub references_in : Bool → List Piece → List Reference
references_in whole [] = []
references_in whole (literal c ∷ ps) = references_in whole ps
references_in whole (placeholder m ∷ ps) = reference m whole ∷ references_in whole ps

unfoldable pub references : String → List Reference
unfolding pieces reference
references s = references_in (is_whole (pieces 0 s)) (pieces 0 s)

pub data PlaceholderProblem : Type 0 where
  malformed not_a_parameter not_whole : String → PlaceholderProblem
  not_upstream : String → String → PlaceholderProblem
  unknown_parameter : String → PlaceholderProblem

-- `_task_reference_problem`
abbrev pub task_problem : Reference → String → Option (List String) → Option PlaceholderProblem
task_problem r name none = some (not_a_parameter r.text)
task_problem r name (some upstream) =
    if not r.whole
    then some (not_whole r.text)
    else if elem name upstream
    then none
    else some (not_upstream r.text name)

abbrev pub param_problem : {P : Type 0} → String → Option (Dict P) → Option PlaceholderProblem
param_problem name none = none
param_problem name (some given) = if has_key name given then none else some (unknown_parameter name)

abbrev pub kind_problem :
    {P : Type 0}
    → Kind
    → Reference
    → String
    → Option (List String)
    → Option (Dict P)
    → Option PlaceholderProblem
kind_problem tasks r name upstream given = task_problem r name upstream
kind_problem params r name upstream given = param_problem name given

abbrev pub name_problem :
    {P : Type 0}
    → Option String
    → Reference
    → Option (List String)
    → Option (Dict P)
    → Option PlaceholderProblem
name_problem none r upstream given = some (malformed r.text)
name_problem (some name) r upstream given = kind_problem r.kind r name upstream given

abbrev pub add_problem :
    Option PlaceholderProblem → List PlaceholderProblem → List PlaceholderProblem
add_problem none rest = rest
add_problem (some p) rest = p ∷ rest

module _ {P : Type 0} where
  unfoldable pub reference_problems :
      List Reference → Option (List String) → Option (Dict P) → List PlaceholderProblem
  reference_problems [] upstream given = []
  reference_problems (r ∷ rs) upstream given =
      add_problem (name_problem r.name r upstream given) (reference_problems rs upstream given)

  unfoldable pub text_problems :
      String → Option (List String) → Option (Dict P) → List PlaceholderProblem
  unfolding references reference_problems
  text_problems s upstream given = reference_problems (references s) upstream given
