-- ===== src/Prelude/Lists.antt =====
-- Lists measured by native numbers, occurrences, and predicates on lists by recursion.
use Prim.Native.Nat.{ℕ, suc, ◌+◌, ◌≤◌}
use mathlib.Core.Path.{◌≡◌}
use mathlib.Core.Bool.{Bool}
use mathlib.Core.Option.{Option, none, some}
use mathlib.Core.List.{List, [], ◌∷◌, ◌++◌}
use native.Mathlib.Omega.{arith}
use keycard.Prelude.Tests.{◌==◌, if◌then◌else◌}

module _ {ℓ} {A : Type ℓ} where
  abbrev pub length : List A → ℕ
  length [] = 0
  length (x ∷ xs) = suc (length xs)

  pub length-append : (xs ys : List A) → length (xs ++ ys) ≡ length xs + length ys
  length-append [] ys = omega arith
  length-append (x ∷ xs) ys = omega (arith, length-append xs ys)

  -- every item satisfies `P`
  abbrev pub All {κ} : (A → Type κ) → List A → Type κ
  All P [] = Unit
  All P (x ∷ xs) = P x × All P xs

  pub All-snoc {κ} : (P : A → Type κ) (l : List A) {a : A} → All P l → P a → All P (l ++ a ∷ [])
  All-snoc P [] h p = (p, tt)
  All-snoc P (x ∷ l) h p = (h.0, All-snoc P l h.1 p)

  pub All-append {κ} : (P : A → Type κ) (l m : List A) → All P l → All P m → All P (l ++ m)
  All-append P [] m h k = k
  All-append P (x ∷ l) m h k = (h.0, All-append P l m h.1 k)

  pub All-weaken {κ μ} :
      (P : A → Type κ) (Q : A → Type μ) (l : List A) → ((a : A) → P a → Q a) → All P l → All Q l
  All-weaken P Q [] f h = tt
  All-weaken P Q (x ∷ l) f h = (f x h.0, All-weaken P Q l f h.1)

  -- how many items pass a test
  abbrev pub count_if : (A → Bool) → List A → ℕ
  count_if p [] = 0
  count_if p (x ∷ xs) = (if p x then 1 else 0) + count_if p xs

  pub count_if-le-length : (p : A → Bool) (l : List A) → count_if p l ≤ length l
  count_if-le-length p [] = omega arith
  count_if-le-length p (x ∷ l) = ground (arith, count_if-le-length p l)

  abbrev pub to_list : Option A → List A
  to_list none = []
  to_list (some a) = a ∷ []

-- how often a number occurs
abbrev pub count : ℕ → List ℕ → ℕ
count a [] = 0
count a (x ∷ xs) = (if x == a then 1 else 0) + count a xs

pub count-append : (n : ℕ) (l m : List ℕ) → count n (l ++ m) ≡ count n l + count n m
count-append n [] m = omega arith
count-append n (i ∷ l) m = omega (arith, count-append n l m)
