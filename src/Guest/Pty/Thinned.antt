-- ===== src/Guest/Pty/Thinned.antt =====
-- Lists that lack some entries of another, in the same order; for the chunks that a reader drops.
use keycard.Prelude.{ℕ, suc, ◌≡◌, refl, ap, List, [], ◌∷◌}

-- The first list is the second without `n` of its entries.
pub data Thinned {ℓ} {A : Type ℓ} : List A → List A → ℕ → Type ℓ where
  ends' : Thinned [] [] 0
  keeps : {xs ys : List A} {n : ℕ} (x : A) → Thinned xs ys n → Thinned (x ∷ xs) (x ∷ ys) n
  loses : {xs ys : List A} {n : ℕ} (x : A) → Thinned xs ys n → Thinned xs (x ∷ ys) (suc n)

pub Thinned-drop {ℓ} :
    {A : Type ℓ} (x : A) (xs ys : List A) (n : ℕ) → Thinned (x ∷ xs) ys n → Thinned xs ys (suc n)
Thinned-drop x xs _ _ (keeps _ h) = loses x h
Thinned-drop x xs _ _ (loses {ys = ys} {n = n} y h) = loses y (Thinned-drop x xs ys n h)

pub Thinned-zero {ℓ} : {A : Type ℓ} (xs ys : List A) → Thinned xs ys 0 → xs ≡ ys
Thinned-zero _ _ ends' = refl
Thinned-zero _ _ (keeps {xs = xs} {ys = ys} x h) = ap (λ l. x ∷ l) (Thinned-zero xs ys h)
