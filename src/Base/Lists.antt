-- ===== src/Base/Lists.antt =====
-- Lists measured by native numbers, Boolean search in them, and predicates on their elements.
use Prim.Native.Nat.{ℕ, suc, ◌+◌}
use Prim.Native.String.{String}
use mathlib.Core.Path.{◌≡◌, refl}
use mathlib.Core.Logic.{◌⊎◌, inl, inr}
use mathlib.Core.Bool.{Bool, true, false, ◌&&◌, ◌||◌}
use mathlib.Core.List.{reverse, reverse-cons, List, [], ◌∷◌, ◌++◌}
use native.Mathlib.Omega.{arith}
use text.Mathlib.Text.{◌==◌ as str_eq}
use text.Mathlib.TextEquality.{eq_iff}
use file_automation.Base.Tests.{if◌then◌else◌}

module _ {ℓ} {A : Type ℓ} where
  abbrev pub length : List A → ℕ
  length [] = 0
  length (x ∷ xs) = suc (length xs)

  pub length-append : (xs ys : List A) → length (xs ++ ys) ≡ length xs + length ys
  length-append [] ys = omega arith
  length-append (x ∷ xs) ys = omega (arith, length-append xs ys)

  -- any(p(x) for x in xs), all(p(x) for x in xs), [x for x in xs if p(x)]
  abbrev pub any : (A → Bool) → List A → Bool
  any p [] = false
  any p (x ∷ xs) = p x || any p xs

  abbrev pub all : (A → Bool) → List A → Bool
  all p [] = true
  all p (x ∷ xs) = p x && all p xs

  abbrev pub filter : (A → Bool) → List A → List A
  filter p [] = []
  filter p (x ∷ xs) = let rest = filter p xs in if p x then x ∷ rest else rest

  abbrev pub All {κ} : (A → Type κ) → List A → Type κ
  All P [] = Unit
  All P (x ∷ xs) = P x × All P xs

  pub All-append {κ} : (P : A → Type κ) (xs ys : List A) → All P xs → All P ys → All P (xs ++ ys)
  All-append P [] ys h k = k
  All-append P (x ∷ xs) ys h k = (h.0, All-append P xs ys h.1 k)

  pub All-map {κ} : (P Q : A → Type κ) (xs : List A) → ((x : A) → P x → Q x) → All P xs → All Q xs
  All-map P Q [] f h = tt
  All-map P Q (x ∷ xs) f h = (f x h.0, All-map P Q xs f h.1)

-- `x in xs` for a list, a tuple or a set of texts
abbrev pub elem : String → List String → Bool
elem k [] = false
elem k (x ∷ xs) = str_eq x k || elem k xs

pub elem-append : (k : String) (xs ys : List String) → elem k (xs ++ ys) ≡ (elem k xs || elem k ys)
elem-append k [] ys = refl
elem-append k (x ∷ xs) ys = ground (arith, elem-append k xs ys)

pub elem-filter :
    (k : String) (p : String → Bool) (xs : List String)
    → elem k (filter p xs) ≡ true
    → (elem k xs ≡ true) × (p k ≡ true)
elem-filter k p [] h = (h, absurd (ground arith))
elem-filter k p (x ∷ xs) h = ground (arith, elem-filter k p xs, eq_iff x k)

pub elem_cases :
    (k x : String) (xs : List String) → elem k (x ∷ xs) ≡ true → (x ≡ k) ⊎ (elem k xs ≡ true)
elem_cases k x xs h = ground (arith, eq_iff x k)

-- What holds of every element holds of one that is found, and the other way round.
pub All-elem {κ} :
    (P : String → Type κ) (k : String) (xs : List String) → All P xs → elem k xs ≡ true → P k
All-elem P k [] h m = absurd (ground arith)
All-elem P k (x ∷ xs) h m = elim (elem_cases k x xs m) [
  | inl e ↦ rw (← e) h.0
  | inr r ↦ All-elem P k xs h.1 r
]

pub elem_self : (k : String) (xs : List String) → elem k (k ∷ xs) ≡ true
elem_self k xs = ground (arith, eq_iff k k)

pub elem_cons : (k x : String) (xs : List String) → elem k xs ≡ true → elem k (x ∷ xs) ≡ true
elem_cons k x xs h = ground arith

pub All_of_elem {κ} :
    (P : String → Type κ) (xs : List String) → ((k : String) → elem k xs ≡ true → P k) → All P xs
All_of_elem P [] f = tt
All_of_elem P (x ∷ xs) f =
    (f x (elem_self x xs), All_of_elem P xs (λ k m. f k (elem_cons k x xs m)))

-- no text stands twice in the list, as in a set or in the keys of a dictionary
abbrev pub IsDistinct : List String → Type 0
IsDistinct [] = Unit
IsDistinct (x ∷ xs) = (elem x xs ≡ false) × IsDistinct xs

-- where not all of them pass, one of them does not
pub all-false :
    (p : String → Bool) (xs : List String)
    → all p xs ≡ false
    → (x : String) × (elem x xs ≡ true) × (p x ≡ false)
all-false p [] h = absurd (ground arith)
all-false p (x ∷ xs) h = by_head (p x) refl (all-false p xs)
  where
    by_head :
        (b : Bool)
        → p x ≡ b
        → (all p xs ≡ false → (y : String) × (elem y xs ≡ true) × (p y ≡ false))
        → (y : String) × (elem y (x ∷ xs) ≡ true) × (p y ≡ false)
    by_head false e later = (x, elem_self x xs, e)
    by_head true e later = let (y, m, n) = later (ground arith) in (y, elem_cons y x xs m, n)

-- where all of them pass, each of them does
pub all-elem :
    (p : String → Bool) (xs : List String) (x : String)
    → all p xs ≡ true
    → elem x xs ≡ true
    → p x ≡ true
all-elem p [] x h m = absurd (ground arith)
all-elem p (y ∷ ys) x h m = ground (arith, all-elem p ys x, eq_iff y x)

pub elem-filter_intro :
    (k : String) (p : String → Bool) (xs : List String)
    → elem k xs ≡ true
    → p k ≡ true
    → elem k (filter p xs) ≡ true
elem-filter_intro k p [] h e = h
elem-filter_intro k p (x ∷ xs) h e = ground (arith, elem-filter_intro k p xs, eq_iff x k)

pub append-eq-nil {ℓ} : {A : Type ℓ} (xs ys : List A) → xs ++ ys ≡ [] → (xs ≡ []) × (ys ≡ [])
append-eq-nil [] ys h = (refl, h)
append-eq-nil (x ∷ xs) ys h = cc

pub length-reverse {ℓ} : {A : Type ℓ} (xs : List A) → length (reverse xs) ≡ length xs
length-reverse [] = refl
length-reverse (x ∷ xs) =
    rw reverse-cons (omega (arith, length-append (reverse xs) (x ∷ []), length-reverse xs))
