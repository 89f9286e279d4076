-- ===== src/Confine/Rules.antt =====
-- The rules of one microVM: what they grant, and that the kernel takes them.
use Prim.Native.Nat.{bit_and, bit_or}
use keycard.Prelude.{
  ℕ, ◌≤◌, String, true, false, ◌≡◌, ◌⊎◌, inl, inr, refl, List, [], ◌∷◌, map, arith, ok, err, All,
  All-append, Bool-cases,
}
use keycard.Confine.{
  rules, plan_for, Kernel, Descriptors, narrowed, add_rule, add_rules, build_ruleset, handled_by,
  read, execute, write, file_access, kvm, execute_bit, read_file, read_dir,
}

-- One of the three accesses that a plan hands out.
abbrev pub IsKnown : ℕ → Type 0
IsKnown access = (access ≡ execute) ⊎ ((access ≡ read) ⊎ (access ≡ write))

pub handled_by-cases :
    (abi : ℕ) → (handled_by abi ≡ 8191) ⊎ ((handled_by abi ≡ 16383) ⊎ (handled_by abi ≡ 32767))
unfolding handled_by
handled_by-cases abi = ground arith

-- What the kernel documents: a rule is accepted if it names rights that the ruleset handles, and on
-- what is no directory only rights that a file can have.
abbrev pub Documented : Kernel → Type 0
Documented kernel =
    (path : String) (access : ℕ)
    → bit_and access (handled_by kernel.abi) ≡ access
    → (kernel.is_dir path ≡ true) ⊎ (bit_and access file_access ≡ access)
    → kernel.accepts path access ≡ true

-- The rights of a rule, cut to what the kernel handles, and narrowed to a file.
abbrev FitsAt : ℕ → ℕ → Type 0
FitsAt access handled =
    (bit_and (bit_and access handled) handled ≡ bit_and access handled)
    × (bit_and (bit_and (bit_and access handled) file_access) handled
        ≡ bit_and (bit_and access handled) file_access)
    × (bit_and (bit_and (bit_and access handled) file_access) file_access
        ≡ bit_and (bit_and access handled) file_access)

known_fits :
    (access : ℕ) → IsKnown access → FitsAt access 8191 × (FitsAt access 16383 × FitsAt access 32767)
known_fits access (inl e) = rw e ((refl, refl, refl), ((refl, refl, refl), (refl, refl, refl)))
known_fits access (inr (inl e)) =
    rw e ((refl, refl, refl), ((refl, refl, refl), (refl, refl, refl)))
known_fits access (inr (inr e)) =
    rw e ((refl, refl, refl), ((refl, refl, refl), (refl, refl, refl)))

fits : (abi access : ℕ) → IsKnown access → FitsAt access (handled_by abi)
fits abi access known =
    let (one, (two, three)) = known_fits access known in
    elim (handled_by-cases abi) [
      | inl e ↦ rw e one
      | inr (inl e) ↦ rw e two
      | inr (inr e) ↦ rw e three
    ]

abbrev IsUsable : Kernel → String × ℕ → Type 0
IsUsable kernel r = IsKnown r.1 × (kernel.opens r.0 ≡ true)

-- Adding rules keeps the ruleset's descriptor and leaves no path's open.
add_rules_descriptors :
    (kernel : Kernel) (handled : ℕ) (rs : List (String × ℕ)) (d : Descriptors)
    → d.path_open ≡ false
    → let d' = (add_rules kernel handled rs d).1 in
      (d'.ruleset_open ≡ d.ruleset_open) × (d'.path_open ≡ false)
unfolding add_rules add_rule
add_rules_descriptors kernel handled [] d h = (refl, h)
add_rules_descriptors kernel handled ((path, access) ∷ rs) d h = ground (
  arith,
  add_rules_descriptors kernel handled rs (add_rule kernel path (bit_and access handled) d).1,
)

module _ (kernel : Kernel) (documented : Documented kernel) where
  add_rule-ok :
      (path : String) (access : ℕ) (d : Descriptors)
      → IsKnown access
      → kernel.opens path ≡ true
      → (add_rule kernel path (bit_and access (handled_by kernel.abi)) d).0 ≡ ok tt
  unfolding add_rule narrowed
  add_rule-ok path access d known there =
      let cut = bit_and access (handled_by kernel.abi) in
      let (whole, part, file) = fits kernel.abi access known in
      elim (Bool-cases (kernel.is_dir path)) [
        | inl dir ↦ ground (arith, documented path cut whole (inl dir))
        | inr no_dir ↦ ground (arith, documented path (bit_and cut file_access) part (inr file))
      ]

  add_rules-ok :
      (rs : List (String × ℕ)) (d : Descriptors)
      → All (IsUsable kernel) rs
      → (add_rules kernel (handled_by kernel.abi) rs d).0 ≡ ok tt
  unfolding add_rules
  add_rules-ok [] d h = refl
  add_rules-ok ((path, access) ∷ rs) d h =
      rw (add_rule-ok path access d h.0.0 h.0.1, add_rules) (add_rules-ok rs _ h.1)

  readable-AreKnown :
      (paths : List String)
      → All (λ p. kernel.opens p ≡ true) paths
      → All (IsUsable kernel) (map (λ p. (p, read)) paths)
  readable-AreKnown [] h = tt
  readable-AreKnown (p ∷ paths) h = ((inr (inl refl), h.0), readable-AreKnown paths h.1)

  -- On a kernel with Landlock that does what it documents, whichever version it has, the ruleset
  -- of a microVM is built wherever its paths can be opened, be they files or directories: no
  -- right is asked for that the kernel would refuse.
  pub build_ruleset_succeeds :
      (binary kernel_image instance_dir : String) (extra : List String)
      → 1 ≤ kernel.abi
      → kernel.creates ≡ true
      → All (λ p. kernel.opens p ≡ true) (binary ∷ kernel_image ∷ instance_dir ∷ kvm ∷ extra)
      → let (r, d) = build_ruleset kernel (plan_for binary kernel_image instance_dir extra) in
        (r ≡ ok true) × (d.ruleset_open ≡ true)
  unfolding build_ruleset plan_for rules
  build_ruleset_succeeds binary image dir extra landlock creates (b, (i, (d, (k, ex)))) =
      let usable : All (IsUsable kernel) (rules (plan_for binary image dir extra)) = (
        (inl refl, b),
        (
          (inr (inl refl), i),
          All-append (IsUsable kernel) (map (λ p. (p, read)) extra) _ (readable-AreKnown extra ex)
              ((inr (inr refl), d), ((inr (inr refl), k), tt)),
        ),
      ) in
      let start : Descriptors = record { ruleset_open = true; path_open = false; added = [] } in
      let built = add_rules-ok (rules (plan_for binary image dir extra)) start usable in
      let still =
        add_rules_descriptors kernel (handled_by kernel.abi)
          (rules (plan_for binary image dir extra)) start refl in
      ground (arith, built, still)

-- A path that only an instance's own rules may write.
abbrev IsOwn : String → String → Type 0
IsOwn instance_dir path = (path ≡ instance_dir) ⊎ (path ≡ kvm)

-- The rights that change nothing: executing, and reading files and directories.
abbrev pub harmless : ℕ
harmless = bit_or execute_bit (bit_or read_file read_dir)

-- A rule that grants no other rights, or one for a path of the instance.
abbrev pub IsConfined : String → String × ℕ → Type 0
IsConfined instance_dir r = (bit_and r.1 harmless ≡ r.1) ⊎ IsOwn instance_dir r.0

abbrev IsHarmless : String → String × ℕ → Type 0
IsHarmless instance_dir r = ((r.1 ≡ execute) ⊎ (r.1 ≡ read)) ⊎ IsOwn instance_dir r.0

abbrev WritesNothing : ℕ → ℕ → Type 0
WritesNothing access handled =
    (bit_and (bit_and access handled) harmless ≡ bit_and access handled)
    × (bit_and (bit_and (bit_and access handled) file_access) harmless
        ≡ bit_and (bit_and access handled) file_access)

reads_only :
    (abi access : ℕ) → (access ≡ execute) ⊎ (access ≡ read) → WritesNothing access (handled_by abi)
reads_only abi access (inl e) = rw e (elim (handled_by-cases abi) [
  | inl h ↦ rw h (refl, refl)
  | inr (inl h) ↦ rw h (refl, refl)
  | inr (inr h) ↦ rw h (refl, refl)
])
reads_only abi access (inr e) = rw e (elim (handled_by-cases abi) [
  | inl h ↦ rw h (refl, refl)
  | inr (inl h) ↦ rw h (refl, refl)
  | inr (inr h) ↦ rw h (refl, refl)
])

module _ (kernel : Kernel) (dir : String) where
  add_rule-AreConfined :
      (path : String) (access : ℕ) (d : Descriptors)
      → IsHarmless dir (path, access)
      → All (IsConfined dir) d.added
      → All
          (IsConfined dir)
          (add_rule kernel path (bit_and access (handled_by kernel.abi)) d).1.added
  unfolding add_rule narrowed
  add_rule-AreConfined path access d (inl known) h =
      let (whole, part) = reads_only kernel.abi access known in ground arith
  add_rule-AreConfined path access d (inr own) h = ground arith

  add_rules-AreConfined :
      (rs : List (String × ℕ)) (d : Descriptors)
      → All (IsHarmless dir) rs
      → All (IsConfined dir) d.added
      → All (IsConfined dir) (add_rules kernel (handled_by kernel.abi) rs d).1.added
  unfolding add_rules
  add_rules-AreConfined [] d hs h = h
  add_rules-AreConfined ((path, access) ∷ rs) d hs h =
      let d' = (add_rule kernel path (bit_and access (handled_by kernel.abi)) d).1 in
      ground (
        arith,
        add_rule-AreConfined path access d hs.0 h,
        add_rules-AreConfined rs d' hs.1 (add_rule-AreConfined path access d hs.0 h),
      )

  readable-AreHarmless : (paths : List String) → All (IsHarmless dir) (map (λ p. (p, read)) paths)
  readable-AreHarmless [] = tt
  readable-AreHarmless (p ∷ paths) = (inl (inr refl), readable-AreHarmless paths)

  -- Whatever the kernel and the file system answer, and whichever paths are to be readable besides,
  -- no rule of a microVM's ruleset grants anything but executing, reading files and reading
  -- directories, save for the instance's directory and `/dev/kvm`, and the only descriptor left open is that of a ruleset that was built.
  pub build_ruleset_confines :
      (binary image : String) (extra : List String)
      → let (r, d) = build_ruleset kernel (plan_for binary image dir extra) in
        All (IsConfined dir) d.added
        × (d.path_open ≡ false)
        × (d.ruleset_open ≡ (elim r [ ok built ↦ built | err e ↦ false ]))
  unfolding build_ruleset plan_for rules
  build_ruleset_confines binary image extra =
      let plan = rules (plan_for binary image dir extra) in
      let all_harmless : All (IsHarmless dir) plan = (
        inl (inl refl),
        (
          inl (inr refl),
          All-append (IsHarmless dir) (map (λ p. (p, read)) extra) _ (readable-AreHarmless extra)
              (inr (inl refl), (inr (inr refl), tt)),
        ),
      ) in
      let start : Descriptors = record { ruleset_open = true; path_open = false; added = [] } in
      let confined = add_rules-AreConfined plan start all_harmless tt in
      let still = add_rules_descriptors kernel (handled_by kernel.abi) plan start refl in
      ground (arith, confined, still)
