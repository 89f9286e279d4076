-- ===== src/Fcapi/Framing.antt =====
-- A head as terminated lines, and how the reading functions run over it.
use keycard.Prelude.{
  ℕ, false, ◌≡◌, refl, Option, none, some, List, [], ◌∷◌, ◌++◌, append_assoc, ap, ◌∙◌, sym, Text,
  All, arith, ◌==◌, length, cut, take_exactly, starts_with, ◌≢◌,
}
use keycard.Fcapi.{join_lines, split_lines, prefix, read_head}

-- Lines, each with its end, in front of `rest`.
abbrev pub terminated : List Text → Text → Text
terminated [] rest = rest
terminated (l ∷ ls) rest = l ++ 13 ∷ 10 ∷ terminated ls rest

abbrev pub IsBare : Text → Type 0
IsBare = All (λ c. (c == 13) ≡ false)

-- A line of a head: no carriage return, and not empty.
pub record IsLine (l : Text) : Type 0 where
  pub bare : IsBare l
  pub some_text : l ≢ []

pub join-terminated :
    (l : Text) (ls : List Text) (rest : Text)
    → join_lines (l ∷ ls) ++ 13 ∷ 10 ∷ rest ≡ terminated (l ∷ ls) rest
unfolding join_lines
join-terminated l [] rest = refl
join-terminated l (m ∷ ls) rest =
    append_assoc l (13 ∷ 10 ∷ join_lines (m ∷ ls)) _
    ∙ ap (λ t. l ++ 13 ∷ 10 ∷ t) (join-terminated m ls rest)

prefix-prefix : (a b : Text) (o : Option (Text × Text)) → prefix a (prefix b o) ≡ prefix (a ++ b) o
prefix-prefix a b none = refl
prefix-prefix a b (some (h, r)) = ap (λ t. some (t, r)) (sym (append_assoc a b h))

read_head-bare :
    (c : ℕ) (rest : Text)
    → (c == 13) ≡ false
    → read_head (c ∷ rest) ≡ prefix (c ∷ []) (read_head rest)
unfolding read_head starts_with
read_head-bare c rest h = ground arith

-- The end of a line that another line follows.
read_head_end :
    (d : ℕ) (rest : Text)
    → (d == 13) ≡ false
    → read_head (13 ∷ 10 ∷ d ∷ rest) ≡ prefix (13 ∷ 10 ∷ []) (read_head (d ∷ rest))
read_head_end d rest h =
    unfold read_head starts_with in
    ground (arith, prefix-prefix (13 ∷ []) (10 ∷ []) (read_head (d ∷ rest)))

read_head_last :
    (rest : Text) → read_head (13 ∷ 10 ∷ 13 ∷ 10 ∷ rest) ≡ some (13 ∷ 10 ∷ 13 ∷ 10 ∷ [], rest)
unfolding read_head starts_with take_exactly
read_head_last rest = refl

read_head-append : (l rest : Text) → IsBare l → read_head (l ++ rest) ≡ prefix l (read_head rest)
read_head-append [] rest h = prefix_nil (read_head rest)
  where
    prefix_nil : (o : Option (Text × Text)) → o ≡ prefix [] o
    prefix_nil none = refl
    prefix_nil (some r) = refl
read_head-append (c ∷ l) rest h =
    read_head-bare c (l ++ rest) h.0
    ∙ ap (prefix (c ∷ [])) (read_head-append l rest h.1)
    ∙ prefix-prefix (c ∷ []) l (read_head rest)

-- Reading stops behind the blank line.
pub read_head-terminated :
    (l : Text) (ls : List Text) (rest : Text)
    → All IsLine (l ∷ ls)
    → read_head (terminated (l ∷ ls) (13 ∷ 10 ∷ rest))
      ≡ some (terminated (l ∷ ls) (13 ∷ 10 ∷ []), rest)
read_head-terminated l [] rest h =
    read_head-append l _ h.0.bare ∙ ap (prefix l) (read_head_last rest)
read_head-terminated l ([] ∷ ls) rest h = absurd (h.1.0.some_text refl)
read_head-terminated l ((d ∷ m) ∷ ls) rest h =
    read_head-append l _ h.0.bare
    ∙ ap (prefix l) (
        read_head_end d _ h.1.0.bare.0
        ∙ ap (prefix (13 ∷ 10 ∷ [])) (read_head-terminated (d ∷ m) ls rest h.1))

split_lines-append :
    (l rest : Text) → IsBare l → split_lines (l ++ 13 ∷ 10 ∷ rest) ≡ l ∷ split_lines rest
unfolding split_lines
split_lines-append [] rest h = refl
split_lines-append (c ∷ []) rest h = ground arith
split_lines-append (c ∷ d ∷ l) rest h = ground (arith, split_lines-append (d ∷ l) rest h.1)

pub split_lines-terminated :
    (ls : List Text) (rest : Text)
    → All IsLine ls
    → split_lines (terminated ls rest) ≡ ls ++ split_lines rest
split_lines-terminated [] rest h = refl
split_lines-terminated (l ∷ ls) rest h =
    split_lines-append l _ h.0.bare ∙ ap (◌∷◌ l) (split_lines-terminated ls rest h.1)

pub cut-append :
    (c : ℕ) (front rest : Text)
    → All (λ d. (d == c) ≡ false) front
    → cut c (front ++ c ∷ rest) ≡ some (front, rest)
unfolding cut
cut-append c [] rest h = ground arith
cut-append c (d ∷ front) rest h = ground (arith, cut-append c front rest h.1)

pub take_exactly-append :
    (front rest : Text) → take_exactly (length front) (front ++ rest) ≡ some (front, rest)
unfolding take_exactly
take_exactly-append [] rest = refl
take_exactly-append (c ∷ front) rest = ground (arith, take_exactly-append front rest)
