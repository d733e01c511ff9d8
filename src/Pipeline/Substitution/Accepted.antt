-- ===== src/Pipeline/Substitution/Accepted.antt =====
-- pipeline/substitution.py: an action that the check accepts is rendered without an exception.
use Prim.Native.Char.{Char}
use file_automation.Base.{
  String, Bool, true, false, Option, none, some, List, [], ◌∷◌, Dict, lookup, Result, ok, err, ◌≡◌,
  refl, arith, lookup_of_has_key, append-eq-nil, inl, inr, subst, sym, Bool-cases,
}
use file_automation.Pipeline.Substitution.{
  Value, Values, Entries, text, list, mapping, other, no_values, value, no_entries, entry, Kind,
  params, tasks, Match, Reference, Piece, literal, placeholder, pieces, reference, references,
  references_in, is_whole, PlaceholderProblem, kind_problem, name_problem, add_problem,
  reference_problems, text_problems,
}
use file_automation.Pipeline.Substitution.Render.{
  RenderError, value_problems, values_problems, entries_problems, action_reference_problems,
  arguments, resolve_as, resolve_name, or_none, resolve, join, substitute, render_pieces,
  render_text, render, key_of, render_key, render_values, render_entries, add_value, add_entry,
  as_list, as_mapping, as_text, has_match,
}

abbrev pub IsOk : {E A : Type 0} → Result E A → Type 0
IsOk {A = A} r = (v : A) × (r ≡ ok v)

module _ {V : Type 0} (str : Value V → String) (nothing : Value V) (given results : Dict (Value V))
    (upstream : Option (List String)) where
  kind-IsOk :
      (k : Kind) (name : String) (r r' : Reference)
      → kind_problem k r name upstream (some given) ≡ none
      → IsOk (resolve_name str nothing given results k name r')
  kind-IsOk tasks name r r' h = (or_none nothing (lookup name results), refl)
  kind-IsOk params name r r' h =
      let (v, e) = lookup_of_has_key name given (ground arith) in (v, rw e refl)

  name-IsOk :
      (name : Option String) (r r' : Reference)
      → r'.kind ≡ r.kind
      → name_problem name r upstream (some given) ≡ none
      → IsOk (resolve_as str nothing given results name r')
  name-IsOk none r r' k h = absurd (ground arith)
  name-IsOk (some name) r r' k h =
      subst (λ x. IsOk (resolve_name str nothing given results x name r')) (sym k)
        (kind-IsOk r.kind name r r' h)

  add_problem-nil :
      (o : Option PlaceholderProblem) (rest : List PlaceholderProblem)
      → add_problem o rest ≡ []
      → (o ≡ none) × (rest ≡ [])
  add_problem-nil none rest h = (refl, h)
  add_problem-nil (some p) rest h = absurd (ground arith)

  -- a match that the check accepts is resolved, whole or not
  reference-IsOk :
      (m : Match) (w w' : Bool)
      → name_problem (reference m w).name (reference m w) upstream (some given) ≡ none
      → IsOk (resolve str nothing given results (reference m w'))
  unfolding resolve reference
  reference-IsOk m w w' h = name-IsOk (reference m w).name (reference m w) (reference m w') refl h

  join-IsOk :
      (a : Result RenderError (Value V)) (b : Result RenderError String)
      → IsOk a
      → IsOk b
      → IsOk (join str nothing given results a b)
  join-IsOk (err e) b (v, h) k = absurd (ground arith)
  join-IsOk (ok v) (err e) h (w, k) = absurd (ground arith)
  join-IsOk (ok v) (ok s) h k = (_, refl)

  cons-IsOk :
      (c : Char) (b : Result RenderError String)
      → IsOk b
      → IsOk (elim b as (λ _. Result RenderError String) [
        | err e ↦ err e
        | ok s ↦ ok (String.◌∷◌ c s)
      ])
  cons-IsOk c (err e) (v, h) = absurd (ground arith)
  cons-IsOk c (ok s) h = (_, refl)

  substitute-IsOk :
      (w : Bool) (ps : List Piece)
      → reference_problems (references_in w ps) upstream (some given) ≡ []
      → IsOk (substitute str nothing given results ps)
  unfolding substitute reference_problems
  substitute-IsOk w [] h = (_, refl)
  substitute-IsOk w (literal c ∷ ps) h =
      cons-IsOk c (substitute str nothing given results ps) (substitute-IsOk w ps h)
  substitute-IsOk w (placeholder m ∷ ps) h =
      let (here, rest) = add_problem-nil _ _ h in
      join-IsOk (resolve str nothing given results (reference m false))
        (substitute str nothing given results ps) (reference-IsOk m w false here)
        (substitute-IsOk w ps rest)

  text-IsOk : (r : Result RenderError String) → IsOk r → IsOk (as_text {V = V} r)
  text-IsOk (err e) (v, h) = absurd (ground arith)
  text-IsOk (ok s) h = (_, refl)

  pieces-IsOk :
      (s : String) (ps : List Piece)
      → reference_problems (references_in (is_whole ps) ps) upstream (some given) ≡ []
      → IsOk (render_pieces str nothing given results s ps)
  unfolding reference_problems
  pieces-IsOk s [] h = (_, refl)
  pieces-IsOk s (placeholder m ∷ []) h = reference-IsOk m true true (add_problem-nil _ _ h).0
  pieces-IsOk s (literal c ∷ ps) h = elim (Bool-cases (has_match ps)) [
    | inl matches ↦ rw matches (text-IsOk _ (substitute-IsOk false (literal c ∷ ps) h))
    | inr plain ↦ rw plain (text s, refl)
  ]
  pieces-IsOk s (placeholder m ∷ p ∷ ps) h =
      text-IsOk _ (substitute-IsOk false (placeholder m ∷ p ∷ ps) h)

  render_text-IsOk :
      (s : String)
      → text_problems s upstream (some given) ≡ []
      → IsOk (render_text str nothing given results s)
  unfolding text_problems render_text references
  render_text-IsOk s h = pieces-IsOk s (pieces 0 s) h

  list-IsOk : (r : Result RenderError (Values V)) → IsOk r → IsOk (as_list r)
  list-IsOk (err e) (v, h) = absurd (ground arith)
  list-IsOk (ok vs) h = (_, refl)

  mapping-IsOk : (r : Result RenderError (Entries V)) → IsOk r → IsOk (as_mapping r)
  mapping-IsOk (err e) (v, h) = absurd (ground arith)
  mapping-IsOk (ok es) h = (_, refl)

  add_value-IsOk :
      (a : Result RenderError (Value V)) (b : Result RenderError (Values V))
      → IsOk a
      → IsOk b
      → IsOk (add_value a b)
  add_value-IsOk (err e) b (v, h) k = absurd (ground arith)
  add_value-IsOk (ok v) (err e) h (w, k) = absurd (ground arith)
  add_value-IsOk (ok v) (ok vs) h k = (_, refl)

  add_entry-IsOk :
      (key : String) (a : Result RenderError (Value V)) (b : Result RenderError (Entries V))
      → IsOk a
      → IsOk b
      → IsOk (add_entry key a b)
  add_entry-IsOk key (err e) b (v, h) k = absurd (ground arith)
  add_entry-IsOk key (ok v) (err e) h (w, k) = absurd (ground arith)
  add_entry-IsOk key (ok v) (ok es) h k = (_, refl)

  mutual
    unfolding value_problems render

    value-IsOk :
        (v : Value V)
        → value_problems upstream (some given) v ≡ []
        → IsOk (render str nothing given results v)
    value-IsOk (text s) h = render_text-IsOk s h
    value-IsOk (list vs) h = list-IsOk _ (values-IsOk vs h)
    value-IsOk (mapping es) h = mapping-IsOk _ (entries-IsOk es h)
    value-IsOk (other v) h = (_, refl)

    values-IsOk :
        (vs : Values V)
        → values_problems upstream (some given) vs ≡ []
        → IsOk (render_values str nothing given results vs)
    values-IsOk no_values h = (_, refl)
    values-IsOk (value v vs) h =
        let (here, rest) = append-eq-nil (value_problems upstream (some given) v) _ h in
        add_value-IsOk _ _ (value-IsOk v here) (values-IsOk vs rest)

    entries-IsOk :
        (es : Entries V)
        → entries_problems upstream (some given) es ≡ []
        → IsOk (render_entries str nothing given results es)
    entries-IsOk no_entries h = (_, refl)
    entries-IsOk (entry key v es) h =
        let (here, rest) = append-eq-nil (value_problems upstream (some given) v) _ h in
        add_entry-IsOk key _ _ (value-IsOk v here) (entries-IsOk es rest)

  action-IsOk :
      (action : Values V)
      → action_reference_problems action upstream (some given) ≡ []
      → IsOk (render_values str nothing given results (arguments action))
  unfolding action_reference_problems
  action-IsOk action h = values-IsOk (arguments action) h

  -- An action whose name has no placeholder, and whose other placeholders the check has accepted with
  -- the parameters of the run, is rendered without an exception, whatever the results of the other
  -- tasks are.
  pub named_action-IsOk :
      (name : String) (rest : Values V)
      → references name ≡ []
      → action_reference_problems (value (text name) rest) upstream (some given) ≡ []
      → IsOk (render str nothing given results (list (value (text name) rest)))
  unfolding render text_problems reference_problems
  named_action-IsOk name rest plain h = list-IsOk _ (
      add_value-IsOk _ _ (render_text-IsOk name (rw plain refl))
        (action-IsOk (value (text name) rest) h))

module _ {V : Type 0} (str : Value V → String) (nothing : Value V) (given : Dict (Value V)) where
  key_of-IsOk : (r : Result RenderError (Value V)) → IsOk r → IsOk (key_of str r)
  key_of-IsOk (err e) (v, h) = absurd (ground arith)
  key_of-IsOk (ok v) h = (_, refl)

  -- an idempotency key that the check accepts is rendered as well
  pub render_key-IsOk :
      (key : String)
      → text_problems key none (some given) ≡ []
      → IsOk (render_key str nothing key given)
  unfolding render_key render
  render_key-IsOk key h = key_of-IsOk _ (render_text-IsOk str nothing given [] none key h)
