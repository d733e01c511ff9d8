-- ===== src/Pipeline/Graph/Sorted.antt =====
-- pipeline/graph.py: what `task_levels` returns lists no task twice.
use file_automation.Base.{
  ℕ, String, str_eq, eq_iff, false, ◌||◌, Option, none, some, List, [], ◌∷◌, elem, Dict, lookup,
  keys, elem-keys, IsDistinct, Result, ok, err, ◌>>=◌, ◌≡◌, refl, arith, inl, inr, Bool-cases, ltb,
  subst,
}
use file_automation.Pipeline.Graph.{Dependencies, LevelError, place, in_level_order, task_levels}
use file_automation.Pipeline.Graph.Order.{place-has_key, order-has_key}

elem-keys-place :
    (t : String) (l : ℕ) (d : Dict ℕ) (k : String)
    → elem k (keys (place (t, l) d)) ≡ (str_eq t k || elem k (keys d))
elem-keys-place t l d k =
    ground (arith, elem-keys k (place (t, l) d), elem-keys k d, place-has_key t l d k)

place-IsDistinct :
    (t : String) (l : ℕ) (d : Dict ℕ)
    → elem t (keys d) ≡ false
    → IsDistinct (keys d)
    → IsDistinct (keys (place (t, l) d))
unfolding place keys
place-IsDistinct t l [] h d = (refl, tt)
place-IsDistinct t l ((u, m) ∷ rest) h d = elim (Bool-cases (ltb m l)) [
  | inl later ↦ rw later (
    ground (arith, elem-keys-place t l rest u, d.0, eq_iff t u, eq_iff u t, h),
    place-IsDistinct t l rest (ground arith) d.1,
  )
  | inr here ↦ rw here (h, d)
]

placed-IsDistinct :
    (t : String) (o : Option ℕ) (rest : Dict ℕ)
    → elem t (keys rest) ≡ false
    → IsDistinct (keys rest)
    → IsDistinct (keys (elim o as (λ _. Dict ℕ) [ none ↦ rest | some l ↦ place (t, l) rest ]))
placed-IsDistinct t none rest h d = d
placed-IsDistinct t (some l) rest h d = place-IsDistinct t l rest h d

order-IsDistinct :
    (levels : Dict ℕ) (ts : List String)
    → IsDistinct ts
    → IsDistinct (keys (in_level_order levels ts))
unfolding in_level_order keys
order-IsDistinct levels [] d = tt
order-IsDistinct levels (t ∷ ts) d =
    placed-IsDistinct t (lookup t levels) (in_level_order levels ts)
      (rw (elem-keys t (in_level_order levels ts)) (order-has_key levels ts t d.0))
      (order-IsDistinct levels ts d.1)

finish-IsDistinct :
    (r : Result LevelError (Dict ℕ)) (levels : Dict ℕ) (ts : List String)
    → IsDistinct ts
    → (r >>= λ l. ok (in_level_order l ts)) ≡ ok levels
    → IsDistinct (keys levels)
finish-IsDistinct (ok l) levels ts d h =
    let e : in_level_order l ts ≡ levels = cc in
    subst (λ x. IsDistinct (keys x)) e (order-IsDistinct l ts d)
finish-IsDistinct (err x) levels ts d h = absurd (ground arith)

-- no task stands twice in the levels
pub task_levels-IsDistinct :
    (deps : Dependencies) (levels : Dict ℕ)
    → IsDistinct (keys deps)
    → task_levels deps ≡ ok levels
    → IsDistinct (keys levels)
unfolding task_levels
task_levels-IsDistinct deps levels d h = finish-IsDistinct _ levels (keys deps) d h
