-- ===== src/Confine/Structs.antt =====
-- The two structs of Landlock as bytes: `struct.pack` at `_RULESET_ATTR` and `_PATH_BENEATH_ATTR`, and what the
-- kernel reads from them. The byte order is that of the machine.
use Prim.Native.Nat.{bit_and}
use mathlib.Core.List.{reverse-cons, reverse-reverse}
use keycard.Prelude.{
  ℕ, zero, suc, ◌+◌, ◌*◌, ◌/◌, ◌%◌, ◌<◌, String, Bool, true, false, ◌≡◌, refl, sym, ◌∙◌, ap, Option,
  none, some, List, [], ◌∷◌, ◌++◌, append-nil, reverse, arith, ltb, length, length-append, lt→ltb,
  if-cases, map, All, All-append, inl, inr, if◌then◌else◌,
}
use keycard.Confine.{Kernel, Plan, handled_by, narrowed, rules, execute, read, write, file_access}
use keycard.Confine.Rules.{IsKnown, handled_by-cases}

-- The bytes of a number, lowest first.
unfoldable pub little_endian : ℕ → ℕ → List ℕ
little_endian zero n = []
little_endian (suc k) n = (n % 256) ∷ little_endian k (n / 256)

unfoldable pub value_of : List ℕ → ℕ
value_of [] = 0
value_of (b ∷ bs) = b + 256 * value_of bs

-- The numbers that `k` bytes can hold.
abbrev pub capacity : ℕ → ℕ
capacity zero = 1
capacity (suc k) = 256 * capacity k

-- A field of `k` bytes in the machine's order.
unfoldable pub pack_field : Bool → ℕ → ℕ → List ℕ
unfolding little_endian
pack_field is_little k n = if is_little then little_endian k n else reverse (little_endian k n)

-- `struct.pack("=Q", handled)`: a number that does not fit is a `struct.error`.
unfoldable pub pack_ruleset : Bool → ℕ → Option (List ℕ)
unfolding pack_field
pack_ruleset is_little handled =
    if ltb handled (capacity 8) then some (pack_field is_little 8 handled) else none

-- `struct.pack("=Qi", access, path_fd)`: the descriptor is signed, and is not negative.
unfoldable pub pack_rule : Bool → ℕ → ℕ → Option (List ℕ)
unfolding pack_field
pack_rule is_little access path_fd =
    if ltb access (capacity 8)
    then (if ltb path_fd 2147483648
        then some (pack_field is_little 8 access ++ pack_field is_little 4 path_fd)
        else none)
    else none

-- The kernel's reading of a field of `k` bytes, and what is behind it.
unfoldable pub take_bytes : ℕ → List ℕ → List ℕ × List ℕ
take_bytes zero bs = ([], bs)
take_bytes (suc k) [] = ([], [])
take_bytes (suc k) (b ∷ bs) = let (front, rest) = take_bytes k bs in (b ∷ front, rest)

abbrev pub read_field : Bool → ℕ → List ℕ → ℕ × List ℕ
read_field is_little k bs =
    let (front, rest) = take_bytes k bs in
    (value_of (if is_little then front else reverse front), rest)

-- `struct landlock_path_beneath_attr`
abbrev pub read_rule : Bool → List ℕ → ℕ × ℕ
read_rule is_little bs =
    let (access, rest) = read_field is_little 8 bs in
    let (path_fd, behind) = read_field is_little 4 rest in (access, path_fd)

value_of-little_endian : (k n : ℕ) → n < capacity k → value_of (little_endian k n) ≡ n
unfolding value_of little_endian
value_of-little_endian zero n h = omega arith
value_of-little_endian (suc k) n h = omega (arith, value_of-little_endian k (n / 256) (omega arith))

length-little_endian : (k n : ℕ) → length (little_endian k n) ≡ k
unfolding little_endian
length-little_endian zero n = refl
length-little_endian (suc k) n = ground (arith, length-little_endian k (n / 256))

length-reverse : (l : List ℕ) → length (reverse l) ≡ length l
length-reverse [] = refl
length-reverse (b ∷ l) =
    ap length (reverse-cons b l)
    ∙ omega (arith, length-append (reverse l) (b ∷ []), length-reverse l)

take_bytes-append : (l rest : List ℕ) (k : ℕ) → length l ≡ k → take_bytes k (l ++ rest) ≡ (l, rest)
unfolding take_bytes
take_bytes-append [] rest zero h = refl
take_bytes-append [] rest (suc k) h = absurd (omega (arith, h))
take_bytes-append (b ∷ l) rest zero h = absurd (omega (arith, h))
take_bytes-append (b ∷ l) rest (suc k) h =
    ap (λ r. (b ∷ r.0, r.1)) (take_bytes-append l rest k (omega (arith, h)))

read_field-pack_field :
    (is_little : Bool) (k n : ℕ) (rest : List ℕ)
    → n < capacity k
    → read_field is_little k (pack_field is_little k n ++ rest) ≡ (n, rest)
unfolding pack_field
read_field-pack_field true k n rest h =
    ap (λ r. (value_of r.0, r.1))
      (take_bytes-append (little_endian k n) rest k (length-little_endian k n))
    ∙ ap (λ m. (m, rest)) (value_of-little_endian k n h)
read_field-pack_field false k n rest h =
    ap (λ r. (value_of (reverse r.0), r.1))
      (take_bytes-append (reverse (little_endian k n)) rest k
        (length-reverse (little_endian k n) ∙ length-little_endian k n))
    ∙ ap (λ m. (m, rest))
        (ap value_of (reverse-reverse (little_endian k n)) ∙ value_of-little_endian k n h)

-- A rule whose rights and descriptor fit is packed, and the kernel reads it as it was meant.
read_rule-pack_rule :
    (is_little : Bool) (access path_fd : ℕ)
    → access < capacity 8
    → path_fd < 2147483648
    → (bytes : List ℕ) × (pack_rule is_little access path_fd ≡ some bytes)
      × (read_rule is_little bytes ≡ (access, path_fd))
unfolding pack_rule
read_rule-pack_rule is_little access path_fd h k =
    let rights = pack_field is_little 8 access in
    let fd = pack_field is_little 4 path_fd in
    let first = read_field-pack_field is_little 8 access fd h in
    let second =
      ap (λ l. read_field is_little 4 l) (sym (append-nil fd))
      ∙ read_field-pack_field is_little 4 path_fd [] (omega (arith, k)) in
    (
      rights ++ fd,
      rw (lt→ltb access (capacity 8) h, lt→ltb path_fd 2147483648 k) refl,
      ap (λ r. (r.0, (read_field is_little 4 r.1).0)) first ∙ ap (λ r. (access, r.0)) second,
    )

-- The rights of a rule, cut to what the kernel handles, and narrowed to a file: both fit.
abbrev FitsField : ℕ → Type 0
FitsField rights = (rights < capacity 8) × (bit_and rights file_access < capacity 8)

handled-FitsField :
    (access : ℕ)
    → FitsField (bit_and access 8191)
      × FitsField (bit_and access 16383)
      × FitsField (bit_and access 32767)
    → (abi : ℕ) → FitsField (bit_and access (handled_by abi))
handled-FitsField access (one, two, three) abi = elim (handled_by-cases abi) [
  | inl e ↦ rw e one
  | inr (inl e) ↦ rw e two
  | inr (inr e) ↦ rw e three
]

known-FitsField :
    (access : ℕ) → IsKnown access → (abi : ℕ) → FitsField (bit_and access (handled_by abi))
known-FitsField access known = handled-FitsField access (elim known [
  | inl e ↦ rw e (omega arith)
  | inr (inl e) ↦ rw e (omega arith)
  | inr (inr e) ↦ rw e (omega arith)
])

module _ (is_little : Bool) (kernel : Kernel) (path_fd : ℕ) (small : path_fd < 2147483648) where
  -- The rule of a path, packed as `_add_rule` does it, is read by the kernel as it was meant.
  abbrev pub ReachesKernel : String × ℕ → Type 0
  ReachesKernel (path, access) =
      let rights = narrowed kernel path (bit_and access (handled_by kernel.abi)) in
      (bytes : List ℕ) × (pack_rule is_little rights path_fd ≡ some bytes)
      × (read_rule is_little bytes ≡ (rights, path_fd))

  known-ReachesKernel : (path : String) (access : ℕ) → IsKnown access → ReachesKernel (path, access)
  unfolding narrowed
  known-ReachesKernel path access known =
      let (whole, cut) = known-FitsField access known kernel.abi in
      read_rule-pack_rule is_little _ path_fd
        (if-cases (λ n. n < capacity 8) (kernel.is_dir path) _ _ (λ _. whole) (λ _. cut)) small

  map-ReachesKernel :
      (access : ℕ) (paths : List String)
      → IsKnown access
      → All ReachesKernel (map (λ p. (p, access)) paths)
  map-ReachesKernel access [] known = tt
  map-ReachesKernel access (path ∷ paths) known =
      (known-ReachesKernel path access known, map-ReachesKernel access paths known)

  -- Whatever paths a plan names, on a kernel of whatever ABI, and in either byte order: each of its
  -- rules fits the struct that it is packed into, so that packing never raises, and the kernel
  -- reads the rights and the descriptor from it that were meant, if the descriptor fits a C int.
  pub rules_reach_kernel : (plan : Plan) → All ReachesKernel (rules plan)
  unfolding rules
  rules_reach_kernel plan =
      All-append ReachesKernel _ (map (λ p. (p, write)) plan.writable)
        (All-append ReachesKernel (map (λ p. (p, execute)) plan.executable) _
          (map-ReachesKernel execute plan.executable (inl refl))
          (map-ReachesKernel read plan.readable (inr (inl refl))))
        (map-ReachesKernel write plan.writable (inr (inr refl)))
