-- ===== src/Prelude/Polling.antt =====
-- Loops that poll: attempt `n` either ends the loop with a value, or is followed by the next one.
use Prim.Native.Nat.{ℕ, zero, suc, ◌+◌, ◌*◌, ◌≤◌}
use mathlib.Core.Path.{◌≡◌, refl}
use mathlib.Core.Logic.{inl, inr}
use mathlib.Core.Bool.{Bool, true}
use mathlib.Core.Option.{Option, none, some}
use native.Mathlib.Omega.{arith}
use keycard.Prelude.Tests.{if◌then◌else◌, leb, Bool-cases}

-- With fuel; `none` is fuel that ran out.
unfoldable pub poll_until {ℓ} : {A : Type ℓ} → (ℕ → Bool) → (ℕ → A) → ℕ → ℕ → Option A
poll_until stops value zero n = none
poll_until stops value (suc fuel) n =
    let rest = poll_until stops value fuel (suc n) in if stops n then some (value n) else rest

-- The clock of the attempts: attempt `n` comes at least `n * delay` after the start.
abbrev pub Advances : ℕ → ℕ → (ℕ → ℕ) → Type 0
Advances start delay now = (n : ℕ) → start + n * delay ≤ now n

-- A loop that stops at a deadline ends with the value of an attempt that stops it.
pub poll_until-ends {ℓ} :
    {A : Type ℓ} (stops : ℕ → Bool) (value : ℕ → A) (now : ℕ → ℕ) (start delay timeout fuel n : ℕ)
    → Advances start delay now
    → ((k : ℕ) → leb (start + timeout) (now k) ≡ true → stops k ≡ true)
    → timeout ≤ (n + fuel) * delay
    → (k : ℕ) × (poll_until stops value (suc fuel) n ≡ some (value k)) × (stops k ≡ true)
unfolding poll_until
poll_until-ends stops value now start delay timeout zero n adv late h =
    let past : start + timeout ≤ now n = omega (arith, adv n, h) in
    let done = late n (ground arith) in (n, rw (done, poll_until) refl, done)
poll_until-ends stops value now start delay timeout (suc fuel) n adv late h =
    elim (Bool-cases (stops n)) [
      | inl done ↦ (n, rw (done, poll_until) refl, done)
      | inr again ↦
          let (k, ends, done) =
            poll_until-ends stops value now start delay timeout fuel (suc n) adv late
              (omega (arith, h)) in
          (k, rw (again, poll_until) ends, done)
    ]
