-- ===== src/Active/Flag.antt =====
-- A drain that waits for the event waits for the registry to be empty.
use keycard.Prelude.{
  ℕ, ◌+◌, ◌-◌, ◌==◌, if◌then◌else◌, ◌≤◌, Bool, true, false, ◌≡◌, ◌↔◌, refl, List, [], ◌∷◌, arith,
  count,
}
use keycard.Active.{ActiveSessions, init, member, remove, add, discard}

pub data Op : Type 0 where
  adds : ℕ → Op
  discards : ℕ → Op

pub step : ActiveSessions → Op → ActiveSessions
step s (adds a) = add a s
step s (discards a) = discard a s

pub run : ActiveSessions → List Op → ActiveSessions
run s [] = s
run s (op ∷ ops) = run (step s op) ops

abbrev is_nil : List ℕ → Bool
is_nil [] = true
is_nil (a ∷ as') = false

record IsExact (s : ActiveSessions) : Type 0 where
  flag : s.empty ≡ is_nil s.sessions
  once : (a : ℕ) → count a s.sessions ≤ 1

count_absent : (a : ℕ) (l : List ℕ) → member a l ≡ false → count a l ≡ 0
unfolding member
count_absent a [] h = refl
count_absent a (b ∷ bs) h = ground (arith, count_absent a bs)

pub count-remove :
    (a b : ℕ) (l : List ℕ) → count a (remove b l) ≡ count a l - (if b == a then 1 else 0)
unfolding remove
count-remove a b [] = ground arith
count-remove a b (c ∷ cs) = ground (arith, count-remove a b cs)

count_of_absent : (a : ℕ) (l : List ℕ) → count a l ≡ 0 → member a l ≡ false
unfolding member
count_of_absent a [] h = refl
count_of_absent a (b ∷ bs) h = ground (arith, count_of_absent a bs)

-- A new session.
pub count-add :
    (a b : ℕ) (s : ActiveSessions)
    → count b s.sessions ≡ 0
    → count a (add b s).sessions ≡ (if b == a then 1 else 0) + count a s.sessions
unfolding add
count-add a b s new = ground (arith, count_of_absent b s.sessions new)

remove_nil : (a : ℕ) (l : List ℕ) → is_nil l ≡ true → is_nil (remove a l) ≡ true
unfolding remove
remove_nil a [] h = refl
remove_nil a (b ∷ bs) h = cc

step-IsExact : (s : ActiveSessions) (op : Op) → IsExact s → IsExact (step s op)
unfolding step
step-IsExact s (adds a) h = record {
  flag = unfold add in ground (arith, count_absent a s.sessions);
  once = λ b. unfold add in ground (arith, count_absent a s.sessions, h.once b);
}
step-IsExact s (discards a) h = record {
  flag = unfold discard in ground (arith, h.flag, remove_nil a s.sessions);
  once = λ b. unfold discard in ground (arith, h.once b, count-remove b a s.sessions);
}

run-IsExact : (s : ActiveSessions) (ops : List Op) → IsExact s → IsExact (run s ops)
unfolding run
run-IsExact s [] h = h
run-IsExact s (op ∷ ops) h = run-IsExact (step s op) ops (step-IsExact s op h)

-- After any sequence of `add` and `discard` the event is set exactly when no session is registered,
-- and a session is registered at most once.
pub empty_is_exact :
    (ops : List Op) (a : ℕ)
    → let s = run init ops in ((s.empty ≡ true) ↔ (s.sessions ≡ [])) × (count a s.sessions ≤ 1)
empty_is_exact ops a =
    let h = run-IsExact init ops (record { flag = refl; once = λ b. omega arith }) in
    (ground (arith, h.flag), h.once a)
