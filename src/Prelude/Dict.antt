-- ===== src/Prelude/Dict.antt =====
-- Python's `dict` with string keys, in insertion order: `put` keeps the place of a key that is there.
use Prim.Native.Nat.{ℕ, ◌+◌}
use Prim.Native.String.{String}
use mathlib.Core.Path.{◌≡◌, refl}
use mathlib.Core.Bool.{Bool, true, false}
use mathlib.Core.Option.{Option, none, some}
use mathlib.Core.List.{List, [], ◌∷◌, map}
use native.Mathlib.Omega.{arith}
use text.Mathlib.Text.{◌==◌}
use text.Mathlib.TextEquality.{eq_iff}
use keycard.Prelude.Tests.{if◌then◌else◌}
use keycard.Prelude.Lists.{count, to_list}

abbrev pub Dict {ℓ} : Type ℓ → Type ℓ
Dict V = List (String × V)

module _ {ℓ} {V : Type ℓ} where
  unfoldable pub get : String → Dict V → Option V
  get k [] = none
  get k ((j, v) ∷ d) = if j == k then some v else get k d

  unfoldable pub put : String → V → Dict V → Dict V
  put k v [] = (k, v) ∷ []
  put k v ((j, w) ∷ d) = if j == k then (j, v) ∷ d else (j, w) ∷ put k v d

  unfoldable pub remove : String → Dict V → Dict V
  remove k [] = []
  remove k ((j, v) ∷ d) = if j == k then d else (j, v) ∷ remove k d

  abbrev pub has : String → Dict V → Bool
  has k d = elim (get k d) [ none ↦ false | some _ ↦ true ]

  abbrev pub values : Dict V → List V
  values = map (λ e. e.1)

  pub get-put :
      (k j : String) (v : V) (d : Dict V) → get j (put k v d) ≡ (if k == j then some v else get j d)
  unfolding get put
  get-put k j v [] = refl
  get-put k j v ((i, w) ∷ d) = ground (arith, eq_iff k j, eq_iff i k, eq_iff i j, get-put k j v d)

  pub get-remove_ne : (k j : String) (d : Dict V) → (k == j) ≡ false → get j (remove k d) ≡ get j d
  unfolding get remove
  get-remove_ne k j [] h = refl
  get-remove_ne k j ((i, w) ∷ d) h =
      ground (arith, eq_iff k j, eq_iff i k, eq_iff i j, get-remove_ne k j d h)

-- A removal takes out the value that was found; a `put` replaces it, or adds one.
pub count-remove :
    (a : ℕ) (k : String) (d : Dict ℕ)
    → count a (values d) ≡ count a (values (remove k d)) + count a (to_list (get k d))
unfolding get remove
count-remove a k [] = omega arith
count-remove a k ((j, v) ∷ d) = ground (arith, count-remove a k d)

pub count-put :
    (a : ℕ) (k : String) (v : ℕ) (d : Dict ℕ)
    → count a (values (put k v d)) + count a (to_list (get k d))
      ≡ count a (values d) + count a (v ∷ [])
unfolding get put
count-put a k v [] = omega arith
count-put a k v ((j, w) ∷ d) = ground (arith, count-put a k v d)
