-- ===== src/Pipeline/Planning.antt =====
-- pipeline/pipeline.py: how a pipeline is put together, checked and planned, with the checks of
-- pipeline/definition.py on values of the declared types. The texts of the findings are left out, and
-- so are the description, the schedule and the time stamps.
pub mod Runs
pub mod Built
pub mod Workable
pub mod Resumed
pub mod DryRuns
pub mod Rendered
mod Tests
use Prim.Native.Char.{code}
use file_automation.Base.{
  ℕ, String, str_eq, Bool, true, false, not, ◌&&◌, ◌||◌, Option, none, some, List, [], ◌∷◌, ◌++◌,
  map, ltb, if◌then◌else◌, Dict, lookup, insert, keys, has_key, filter, Result, ok, err, ◌>>=◌,
}
use file_automation.Pipeline.Model.{Task, RetryPolicy}
use file_automation.Pipeline.Graph.{
  Dependencies, or_empty, Problem, dependency_problems, LevelError, task_levels, upstream_of,
}
use file_automation.Pipeline.Runner.{Plan}
use file_automation.Pipeline.Substitution.{
  Value, Values, Entries, text, list, mapping, other, no_values, value, no_entries, entry, is_space,
  is_name, PlaceholderProblem, text_problems,
}
use file_automation.Pipeline.Substitution.Render.{action_reference_problems}

-- a task's work: a Python callable, or an action
pub data Work (V : Type 0) : Type 0 where
  callable : Work V
  action : Values V → Work V

-- a task of the library with its work
pub record TaskSpec (V : Type 0) : Type 0 where
  pub task : Task
  pub work : Work V

pub record Pipeline (V : Type 0) : Type 0 where
  pub name : String
  pub max_workers : ℕ
  pub params : Dict (Value V)
  pub tasks : Dict (TaskSpec V)

pub data DefinitionProblem : Type 0 where
  empty_name no_workers no_tasks : DefinitionProblem
  parameter_name task_name duplicate_task : String → DefinitionProblem
  empty_action no_action_name long_action no_argument_set : String → DefinitionProblem
  bad_timeout empty_key : String → DefinitionProblem
  in_action in_key : String → PlaceholderProblem → DefinitionProblem
  in_graph : Problem → DefinitionProblem

-- not value.strip()
abbrev pub is_blank : String → Bool
is_blank String.[] = true
is_blank (String.◌∷◌ c s) = is_space (code c) && is_blank s

abbrev pub timeout_problems : String → Option ℕ → List DefinitionProblem
timeout_problems id none = []
timeout_problems id (some seconds) = if ltb 0 seconds then [] else bad_timeout id ∷ []

-- upstream_tasks(dependencies)[task_id]
abbrev pub upstream_at : Dependencies → String → List String
upstream_at deps id = or_empty (upstream_of deps id)

abbrev pub add_notes :
    String → List DefinitionProblem → Dict (List DefinitionProblem) → Dict (List DefinitionProblem)
add_notes id [] found = found
add_notes id (n ∷ ns) found = (id, n ∷ ns) ∷ found

-- [note for notes in found.values() for note in notes]
abbrev pub all_notes : Dict (List DefinitionProblem) → List DefinitionProblem
all_notes [] = []
all_notes ((id, notes) ∷ rest) = notes ++ all_notes rest

-- `idempotency_key_problems`, where no parameters are given yet
abbrev pub idempotency_key_problems : String → Option String → List DefinitionProblem
idempotency_key_problems id none = []
idempotency_key_problems id (some key) =
    if str_eq key ""
    then empty_key id ∷ []
    else map (in_key id) (text_problems {P = Unit} key none none)

module _ {V : Type 0} where
  -- `params_problems`
  unfoldable pub params_problems : Dict (Value V) → List DefinitionProblem
  unfolding is_name
  params_problems [] = []
  params_problems ((name, v) ∷ rest) =
      let later = params_problems rest in
      if is_name name then later else parameter_name name ∷ later

  abbrev pub new_pipeline :
      String
      → ℕ
      → Dict (Value V)
      → List DefinitionProblem
      → Result (List DefinitionProblem) (Pipeline V)
  new_pipeline name max_workers params [] =
      ok (record { name = name; max_workers = max_workers; params = params; tasks = [] })
  new_pipeline name max_workers params (p ∷ ps) = err (p ∷ ps)

  -- `Pipeline.__init__`
  unfoldable pub create : String → ℕ → Dict (Value V) → Result (List DefinitionProblem) (Pipeline V)
  unfolding params_problems
  create name max_workers params = new_pipeline name max_workers params (
      (if is_blank name then empty_name ∷ [] else [])
      ++ (if ltb max_workers 1 then no_workers ∷ [] else [])
      ++ params_problems params)

  -- `_arguments_problems`; the names of arguments are texts
  abbrev pub arguments_problems : String → Value V → List DefinitionProblem
  arguments_problems id (list vs) = []
  arguments_problems id (mapping es) = []
  arguments_problems id (text s) = no_argument_set id ∷ []
  arguments_problems id (other v) = no_argument_set id ∷ []

  abbrev pub action_name_problems : String → Value V → List DefinitionProblem
  action_name_problems id (text s) = if str_eq s "" then no_action_name id ∷ [] else []
  action_name_problems id _ = no_action_name id ∷ []

  abbrev pub argument_set_problems : String → Values V → List DefinitionProblem
  argument_set_problems id no_values = []
  argument_set_problems id (value v no_values) = arguments_problems id v
  argument_set_problems id (value v (value w vs)) = long_action id ∷ []

  unfoldable pub action_problems : String → Values V → List DefinitionProblem
  action_problems id no_values = empty_action id ∷ []
  action_problems id (value name vs) = action_name_problems id name ++ argument_set_problems id vs

  abbrev pub work_problems : String → Work V → List DefinitionProblem
  work_problems id callable = []
  work_problems id (action a) = action_problems id a

  -- `_task_problems`
  unfoldable pub task_problems : TaskSpec V → Dict (TaskSpec V) → List DefinitionProblem
  unfolding action_problems
  task_problems spec taken =
      let id = spec.task.task_id in
      if not (is_name id)
      then task_name id ∷ []
      else (if has_key id taken then duplicate_task id ∷ [] else [])
        ++ work_problems id spec.work
        ++ timeout_problems id spec.task.timeout
        ++ idempotency_key_problems id spec.task.idempotency_key

  abbrev pub add_checked :
      TaskSpec V
      → Pipeline V
      → List DefinitionProblem
      → Result (List DefinitionProblem) (Pipeline V)
  add_checked spec p [] = ok (record p { tasks = insert spec.task.task_id spec p.tasks })
  add_checked spec p (x ∷ xs) = err (x ∷ xs)

  -- `Pipeline.task`
  unfoldable pub add_task : TaskSpec V → Pipeline V → Result (List DefinitionProblem) (Pipeline V)
  unfolding task_problems
  add_task spec p = add_checked spec p (task_problems spec p.tasks)

  -- `_dependencies`
  abbrev pub dependencies : Dict (TaskSpec V) → Dependencies
  dependencies [] = []
  dependencies ((id, spec) ∷ rest) = (spec.task.task_id, spec.task.depends_on) ∷ dependencies rest

  -- the placeholders of a task's action, with the parameters where they are given
  abbrev pub placeholder_problems :
      Dependencies → Option (Dict (Value V)) → String → Work V → List DefinitionProblem
  placeholder_problems deps given id callable = []
  placeholder_problems deps given id (action a) =
      map (in_action id) (action_reference_problems a (some (upstream_at deps id)) given)

  unfoldable pub all_placeholder_problems :
      Dependencies → Dict (TaskSpec V) → List DefinitionProblem
  all_placeholder_problems deps [] = []
  all_placeholder_problems deps ((id, spec) ∷ rest) =
      placeholder_problems deps none spec.task.task_id spec.work
      ++ all_placeholder_problems deps rest

  unfoldable pub problems_of : Dict (TaskSpec V) → List DefinitionProblem
  unfolding all_placeholder_problems
  problems_of [] = no_tasks ∷ []
  problems_of (t ∷ ts) =
      map in_graph (dependency_problems (dependencies (t ∷ ts)))
      ++ all_placeholder_problems (dependencies (t ∷ ts)) (t ∷ ts)

  -- `Pipeline.problems`
  unfoldable pub problems : Pipeline V → List DefinitionProblem
  unfolding problems_of
  problems p = problems_of p.tasks

  abbrev pub key_notes : String → Dict (Value V) → Option String → List DefinitionProblem
  key_notes id params none = []
  key_notes id params (some key) = map (in_key id) (text_problems key none (some params))

  -- what one task uses and the run was not given
  unfoldable pub notes_of : Dependencies → Dict (Value V) → TaskSpec V → List DefinitionProblem
  notes_of deps params spec =
      placeholder_problems deps (some params) spec.task.task_id spec.work
      ++ key_notes spec.task.task_id params spec.task.idempotency_key

  unfoldable pub notes_for :
      Dependencies → Dict (Value V) → Dict (TaskSpec V) → Dict (List DefinitionProblem)
  unfolding notes_of
  notes_for deps params [] = []
  notes_for deps params ((id, spec) ∷ rest) =
      add_notes spec.task.task_id (notes_of deps params spec) (notes_for deps params rest)

  -- `_input_problems`
  unfoldable pub input_problems : Pipeline V → Dict (Value V) → Dict (List DefinitionProblem)
  unfolding notes_for
  input_problems p params = notes_for (dependencies p.tasks) params p.tasks
