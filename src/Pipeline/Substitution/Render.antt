-- ===== src/Pipeline/Substitution/Render.antt =====
-- pipeline/substitution.py: the check of an action's placeholders and their replacement, over all
-- texts of the action.
use Prim.Native.String.{◌++◌ as text_append}
use file_automation.Base.{
  String, Bool, true, false, Option, none, some, List, [], ◌∷◌, ◌++◌, Dict, lookup, if◌then◌else◌,
  Result, ok, err,
}
use file_automation.Pipeline.Substitution.{
  Value, Values, Entries, text, list, mapping, other, no_values, value, no_entries, entry, Kind,
  params, tasks, Reference, Piece, literal, placeholder, pieces, reference, PlaceholderProblem,
  text_problems,
}

-- the PipelineException of `_resolve`
pub data RenderError : Type 0 where
  malformed_placeholder : String → RenderError
  no_parameter : String → String → RenderError

abbrev pub has_match : List Piece → Bool
has_match [] = false
has_match (literal c ∷ ps) = has_match ps
has_match (placeholder m ∷ ps) = true

module _ {V : Type 0} where
  -- `walk_strings`, with what `action_reference_problems` finds in the texts
  unfoldable mutual
    unfolding text_problems

    pub value_problems :
        Option (List String) → Option (Dict (Value V)) → Value V → List PlaceholderProblem
    value_problems upstream given (text s) = text_problems s upstream given
    value_problems upstream given (list vs) = values_problems upstream given vs
    value_problems upstream given (mapping es) = entries_problems upstream given es
    value_problems upstream given (other v) = []

    pub values_problems :
        Option (List String) → Option (Dict (Value V)) → Values V → List PlaceholderProblem
    values_problems upstream given no_values = []
    values_problems upstream given (value v vs) =
        value_problems upstream given v ++ values_problems upstream given vs

    pub entries_problems :
        Option (List String) → Option (Dict (Value V)) → Entries V → List PlaceholderProblem
    entries_problems upstream given no_entries = []
    entries_problems upstream given (entry key v es) =
        value_problems upstream given v ++ entries_problems upstream given es

  -- action[1:]
  abbrev pub arguments : Values V → Values V
  arguments no_values = no_values
  arguments (value name rest) = rest

  unfoldable pub action_reference_problems :
      Values V → Option (List String) → Option (Dict (Value V)) → List PlaceholderProblem
  unfolding value_problems
  action_reference_problems action upstream given =
      values_problems upstream given (arguments action)

  abbrev pub or_none : Value V → Option (Value V) → Value V
  or_none absent none = absent
  or_none absent (some v) = v

  abbrev pub given_value : String → String → Option (Value V) → Result RenderError (Value V)
  given_value name written none = err (no_parameter name written)
  given_value name written (some v) = ok v

  abbrev pub as_text : Result RenderError String → Result RenderError (Value V)
  as_text (err e) = err e
  as_text (ok s) = ok (text s)

  abbrev pub as_list : Result RenderError (Values V) → Result RenderError (Value V)
  as_list (err e) = err e
  as_list (ok vs) = ok (list vs)

  abbrev pub as_mapping : Result RenderError (Entries V) → Result RenderError (Value V)
  as_mapping (err e) = err e
  as_mapping (ok es) = ok (mapping es)

  abbrev pub add_value :
      Result RenderError (Value V) → Result RenderError (Values V) → Result RenderError (Values V)
  add_value (err e) rest = err e
  add_value (ok v) (err e) = err e
  add_value (ok v) (ok vs) = ok (value v vs)

  abbrev pub add_entry :
      String
      → Result RenderError (Value V)
      → Result RenderError (Entries V)
      → Result RenderError (Entries V)
  add_entry key (err e) rest = err e
  add_entry key (ok v) (err e) = err e
  add_entry key (ok v) (ok es) = ok (entry key v es)

  -- what `str` makes of a value, and the value `None`
  module _ (str : Value V → String) (nothing : Value V) (given results : Dict (Value V)) where
    abbrev pub resolve_name : Kind → String → Reference → Result RenderError (Value V)
    resolve_name tasks name r = ok (or_none nothing (lookup name results))
    resolve_name params name r = given_value name r.text (lookup name given)

    abbrev pub resolve_as : Option String → Reference → Result RenderError (Value V)
    resolve_as none r = err (malformed_placeholder r.text)
    resolve_as (some name) r = resolve_name r.kind name r

    -- `_resolve`
    unfoldable pub resolve : Reference → Result RenderError (Value V)
    resolve r = resolve_as r.name r

    abbrev pub join :
        Result RenderError (Value V) → Result RenderError String → Result RenderError String
    join (err e) rest = err e
    join (ok v) (err e) = err e
    join (ok v) (ok s) = ok (text_append (str v) s)

    -- `_PLACEHOLDER.sub`
    unfoldable pub substitute : List Piece → Result RenderError String
    unfolding resolve reference
    substitute [] = ok ""
    substitute (literal c ∷ ps) = elim (substitute ps) [
      | err e ↦ err e
      | ok s ↦ ok (String.◌∷◌ c s)
    ]
    substitute (placeholder m ∷ ps) = join (resolve (reference m false)) (substitute ps)

    abbrev pub render_pieces : String → List Piece → Result RenderError (Value V)
    render_pieces s (placeholder m ∷ []) = resolve (reference m true)
    render_pieces s ps = if has_match ps then as_text (substitute ps) else ok (text s)

    -- `_render_text`
    unfoldable pub render_text : String → Result RenderError (Value V)
    unfolding pieces substitute resolve
    render_text s = render_pieces s (pieces 0 s)

    unfoldable mutual
      unfolding render_text

      pub render : Value V → Result RenderError (Value V)
      render (text s) = render_text s
      render (list vs) = as_list (render_values vs)
      render (mapping es) = as_mapping (render_entries es)
      render (other v) = ok (other v)

      pub render_values : Values V → Result RenderError (Values V)
      render_values no_values = ok no_values
      render_values (value v vs) = add_value (render v) (render_values vs)

      pub render_entries : Entries V → Result RenderError (Entries V)
      render_entries no_entries = ok no_entries
      render_entries (entry key v es) = add_entry key (render v) (render_entries es)

  abbrev pub key_of : (Value V → String) → Result RenderError (Value V) → Result RenderError String
  key_of str (err e) = err e
  key_of str (ok v) = ok (str v)

  unfoldable pub render_key :
      (Value V → String) → Value V → String → Dict (Value V) → Result RenderError String
  unfolding render
  render_key str nothing key given = key_of str (render str nothing given [] (text key))
