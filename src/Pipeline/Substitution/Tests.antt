-- ===== src/Pipeline/Substitution/Tests.antt =====
-- An action that copies a dated report into what another task has made.
use file_automation.Base.{ℕ, String, some, [], ◌∷◌, ◌≡◌, refl, Dict, lookup, has_key, ok, err}
use file_automation.Pipeline.Substitution.{
  Value, Values, text, list, mapping, other, no_values, value, no_entries, entry, references,
  reference, match_at, pieces, is_name, text_problems, reference_problems, malformed, not_whole,
  unknown_parameter,
}
use file_automation.Pipeline.Substitution.Render.{
  action_reference_problems, value_problems, arguments, render, render_values, render_text,
  substitute, resolve, render_key, no_parameter,
}
use file_automation.Pipeline.Substitution.Accepted.{IsOk, named_action-IsOk}

abbrev str : Value ℕ → String
str (text s) = s
str v = "?"

abbrev nothing : Value ℕ
nothing = other 0

abbrev given : Dict (Value ℕ)
given = ("day", text "friday") ∷ ("copies", other 3) ∷ []

abbrev results : Dict (Value ℕ)
results = ("load", list no_values) ∷ []

abbrev copy : Values ℕ
copy = value (text "FA_copy") (
    value
      (mapping (
        entry "source" (text "in/${params.day}.csv") (
          entry "target" (text "${tasks.load.result}")
            (entry "copies" (text "${params.copies}") no_entries))))
      no_values)

copy-accepted : action_reference_problems copy (some ("load" ∷ [])) (some given) ≡ []
unfolding action_reference_problems value_problems text_problems reference_problems references
    reference pieces match_at is_name has_key
copy-accepted = refl

copy-rendered :
    render_values str nothing given results (arguments copy)
    ≡ ok (
        value
          (mapping (
            entry "source"
              (text "in/friday.csv")
              (entry "target" (list no_values) (entry "copies" (other 3) no_entries))))
          no_values)
unfolding render render_text substitute resolve reference pieces match_at is_name lookup
copy-rendered = refl

bad-texts :
    text_problems "${params.} x ${tasks.a} ${params.none}${tasks.load.result} ${other}"
      (some ("load" ∷ []))
      (some given)
    ≡ malformed "${params.}"
      ∷ malformed "${tasks.a}"
      ∷ unknown_parameter "none"
      ∷ not_whole "${tasks.load.result}"
      ∷ []
unfolding text_problems reference_problems references reference pieces match_at is_name has_key
bad-texts = refl

key-unknown :
    render_key str nothing "load-${params.night}" given
    ≡ err (no_parameter "night" "${params.night}")
unfolding render_key render render_text substitute resolve reference pieces match_at is_name lookup
key-unknown = refl

copy-IsOk : IsOk (render str nothing given results (list copy))
unfolding references
copy-IsOk =
    named_action-IsOk str nothing given results (some ("load" ∷ [])) "FA_copy" _ refl copy-accepted

-- the check passes over the name of the command, which the worker renders as well
abbrev nameless : Values ℕ
nameless = value (text "${params.night}") no_values

nameless-accepted : action_reference_problems nameless (some []) (some given) ≡ []
unfolding action_reference_problems value_problems
nameless-accepted = refl

nameless-refused :
    render str nothing given results (list nameless) ≡ err (no_parameter "night" "${params.night}")
unfolding render render_text substitute resolve reference pieces match_at is_name lookup
nameless-refused = refl
