-- ===== src/Pipeline/Graph/Cycle.antt =====
-- The depth-first walk of pipeline/graph.py: what it keeps true of its stack and its marks.
use file_automation.Base.{
  ℕ, zero, suc, String, str_eq, eq_iff, true, ◌||◌, none, some, List, [], ◌∷◌, ◌++◌, elem, All,
  lookup, insert, lookup-insert, ◌≡◌, refl, inl, inr, arith, Option-cases, All_of_elem, Bool-cases,
}
use file_automation.Pipeline.Graph.{
  Dependencies, edges, on_path, finished, Marks, Frame, Search, cycle, clear, out_of_fuel,
  close_cycle, walk,
}

-- each member is followed by one that it depends on
abbrev pub IsChain : Dependencies → List String → Type 0
IsChain deps [] = Unit
IsChain deps (x ∷ []) = Unit
IsChain deps (x ∷ y ∷ rest) = (elem y (edges deps x) ≡ true) × IsChain deps (y ∷ rest)

-- [a, b, ..., a], each depending on the next
pub record IsCycle (deps : Dependencies) (c : List String) : Type 0 where
  pub start : String
  pub between : List String
  pub closed : c ≡ start ∷ (between ++ start ∷ [])
  pub chain : IsChain deps c

abbrev pub tasks : List Frame → List String
tasks [] = []
tasks ((t, rest) ∷ below) = t ∷ tasks below

abbrev pub DependsOn : Dependencies → String → List Frame → Type 0
DependsOn deps t [] = Unit
DependsOn deps t ((u, rest) ∷ below) = elem t (edges deps u) ≡ true

-- what a frame has left are dependencies, and each task is a dependency of the one below it
abbrev pub IsLinked : Dependencies → List Frame → Type 0
IsLinked deps [] = Unit
IsLinked deps ((t, rest) ∷ below) =
    All (λ d. elem d (edges deps t) ≡ true) rest × DependsOn deps t below × IsLinked deps below

closed_here :
    (deps : Dependencies) (f t : String) (found : List String)
    → str_eq t f ≡ true
    → IsChain deps (t ∷ (found ++ f ∷ []))
    → IsCycle deps (t ∷ (found ++ f ∷ []))
closed_here deps f t found e c = record {
  start = t;
  between = found;
  closed = rw ((eq_iff t f).0 e) refl;
  chain = c;
}

close_cycle-IsCycle :
    (deps : Dependencies) (f t : String) (rest : List String) (below : List Frame)
    (found : List String)
    → IsLinked deps ((t, rest) ∷ below)
    → IsChain deps (t ∷ (found ++ f ∷ []))
    → elem f (tasks ((t, rest) ∷ below)) ≡ true
    → IsCycle deps (close_cycle f ((t, rest) ∷ below) (found ++ f ∷ []))
unfolding close_cycle
close_cycle-IsCycle deps f t rest [] found l c m =
    let e : str_eq t f ≡ true = ground arith in rw e (closed_here deps f t found e c)
close_cycle-IsCycle deps f t rest ((u, more) ∷ below) found l c m = elim (Bool-cases (str_eq t f)) [
  | inl e ↦ rw e (closed_here deps f t found e c)
  | inr e ↦ rw e (close_cycle-IsCycle deps f u more below (t ∷ found) l.2 (l.1, c) (ground arith))
]

-- Every dependency of the members of the list stands behind them: the order of finishing.
abbrev pub IsTopological : Dependencies → List String → Type 0
IsTopological deps [] = Unit
IsTopological deps (x ∷ rest) =
    ((d : String) → elem d (edges deps x) ≡ true → elem d rest ≡ true) × IsTopological deps rest

-- what a frame has already handled is done, or stands above it on the stack
abbrev pub IsCovered : Dependencies → List String → List Frame → Type 0
IsCovered deps known [] = Unit
IsCovered deps known ((t, rest) ∷ below) =
    ((d : String) → elem d (edges deps t) ≡ true → (elem d rest || elem d known) ≡ true)
    × IsCovered deps (t ∷ known) below

-- the invariant of the walk; `done` lists the finished tasks, the latest first
pub record Walks (deps : Dependencies) (frames : List Frame) (marks : Marks) (done : List String)
    : Type 0 where
  pub linked : IsLinked deps frames
  pub covered : IsCovered deps done frames
  pub topological : IsTopological deps done
  pub path_marked : (x : String) → lookup x marks ≡ some on_path → elem x (tasks frames) ≡ true
  pub done_marked : (x : String) → lookup x marks ≡ some finished → elem x done ≡ true

IsCovered-mono :
    (deps : Dependencies) (known more : List String) (frames : List Frame)
    → ((d : String) → elem d known ≡ true → elem d more ≡ true)
    → IsCovered deps known frames
    → IsCovered deps more frames
IsCovered-mono deps known more [] f c = tt
IsCovered-mono deps known more ((t, rest) ∷ below) f c = (
  λ d e. ground (arith, c.0 d e, f d),
  IsCovered-mono deps (t ∷ known) (t ∷ more) below (λ d e. ground (arith, f d)) c.1,
)

-- a frame with nothing left is finished
pop-Walks :
    (deps : Dependencies) (t : String) (below : List Frame) (marks : Marks) (done : List String)
    → Walks deps ((t, []) ∷ below) marks done
    → Walks deps below (insert t finished marks) (t ∷ done)
pop-Walks deps t below marks done w = record {
  linked = w.linked.2;
  covered = w.covered.1;
  topological = (λ d e. ground (arith, w.covered.0 d e), w.topological);
  path_marked =
      λ x e. ground (arith, lookup-insert t x finished marks, w.path_marked x, eq_iff t x);
  done_marked =
      λ x e. ground (arith, lookup-insert t x finished marks, w.done_marked x, eq_iff t x);
}

-- a dependency that is finished is passed over
pass-Walks :
    (deps : Dependencies) (t f : String) (rest : List String) (below : List Frame) (marks : Marks)
    (done : List String)
    → lookup f marks ≡ some finished
    → Walks deps ((t, f ∷ rest) ∷ below) marks done
    → Walks deps ((t, rest) ∷ below) marks done
pass-Walks deps t f rest below marks done e w = record {
  linked = (w.linked.0.1, w.linked.1, w.linked.2);
  covered = (λ d h. ground (arith, w.covered.0 d h, w.done_marked f e, eq_iff f d), w.covered.1);
  topological = w.topological;
  path_marked = w.path_marked;
  done_marked = w.done_marked;
}

pub edges_self :
    (deps : Dependencies) (t : String) → All (λ d. elem d (edges deps t) ≡ true) (edges deps t)
edges_self deps t = All_of_elem _ (edges deps t) (λ d m. m)

-- a dependency that is not marked goes on the stack
push-Walks :
    (deps : Dependencies) (t f : String) (rest : List String) (below : List Frame) (marks : Marks)
    (done : List String)
    → lookup f marks ≡ none
    → Walks deps ((t, f ∷ rest) ∷ below) marks done
    → Walks deps ((f, edges deps f) ∷ (t, rest) ∷ below) (insert f on_path marks) done
push-Walks deps t f rest below marks done e w = record {
  linked = (edges_self deps f, w.linked.0.0, (w.linked.0.1, w.linked.1, w.linked.2));
  covered = (
    λ d h. ground arith,
    (
      λ d h. ground (arith, w.covered.0 d h),
      IsCovered-mono deps (t ∷ done) (t ∷ f ∷ done) below (λ d h. ground arith) w.covered.1,
    ),
  );
  topological = w.topological;
  path_marked = λ x h. ground (arith, lookup-insert f x on_path marks, w.path_marked x, eq_iff f x);
  done_marked = λ x h. ground (arith, lookup-insert f x on_path marks, w.done_marked x, eq_iff f x);
}

-- what a walk leaves: a cycle, or marks under which all that was on the stack is finished
abbrev pub Walked : Dependencies → List Frame → List String → Search → Type 0
Walked deps frames done (cycle c) = IsCycle deps c
Walked deps frames done (clear marks) =
    (done' : List String) × Walks deps [] marks done'
    × ((x : String) → elem x done ≡ true → elem x done' ≡ true)
    × ((x : String) → elem x (tasks frames) ≡ true → elem x done' ≡ true)
Walked deps frames done out_of_fuel = Unit

-- a step of the walk that keeps or moves what was on the stack
Walked-weaken :
    (deps : Dependencies) (frames more : List Frame) (done known : List String) (r : Search)
    → ((x : String) → elem x done ≡ true → elem x known ≡ true)
    → ((x : String) → elem x (tasks frames) ≡ true → (elem x (tasks more) || elem x known) ≡ true)
    → Walked deps more known r
    → Walked deps frames done r
Walked-weaken deps frames more done known (cycle c) f g w = w
Walked-weaken deps frames more done known (clear marks) f g (done', w, old, new) =
    (done', w, λ x h. old x (f x h), λ x h. ground (arith, g x h, new x, old x))
Walked-weaken deps frames more done known out_of_fuel f g w = tt

pub walk-Walked :
    (deps : Dependencies) (fuel : ℕ) (frames : List Frame) (marks : Marks) (done : List String)
    → Walks deps frames marks done
    → Walked deps frames done (walk deps fuel frames marks)
unfolding walk
walk-Walked deps zero frames marks done w = tt
walk-Walked deps (suc fuel) [] marks done w = (done, w, λ x h. h, λ x h. absurd (ground arith))
walk-Walked deps (suc fuel) ((t, []) ∷ below) marks done w =
    Walked-weaken deps ((t, []) ∷ below) below done (t ∷ done) _ (λ x h. ground arith)
      (λ x h. ground arith)
      (walk-Walked deps fuel below (insert t finished marks) (t ∷ done)
        (pop-Walks deps t below marks done w))
walk-Walked deps (suc fuel) ((t, f ∷ rest) ∷ below) marks done w =
    elim (Option-cases (lookup f marks)) [
      | inl e ↦
          rw (e, walk)
            (Walked-weaken deps ((t, f ∷ rest) ∷ below) ((f, edges deps f) ∷ (t, rest) ∷ below) done
              done _ (λ x h. h) (λ x h. ground arith)
              (walk-Walked deps fuel ((f, edges deps f) ∷ (t, rest) ∷ below)
                (insert f on_path marks) done (push-Walks deps t f rest below marks done e w)))
      | inr (on_path, e) ↦
          rw (e, walk)
            (close_cycle-IsCycle deps f t rest below [] (w.linked.0.1, w.linked.1, w.linked.2)
              (w.linked.0.0, tt) (w.path_marked f e))
      | inr (finished, e) ↦
          rw (e, walk)
            (Walked-weaken deps ((t, f ∷ rest) ∷ below) ((t, rest) ∷ below) done done _ (λ x h. h)
              (λ x h. ground arith)
              (walk-Walked deps fuel ((t, rest) ∷ below) marks done
                (pass-Walks deps t f rest below marks done e w)))
    ]
