-- ===== src/Prelude/Decimals.antt =====
-- `str` of a natural number, and that `int` reads it back.
use keycard.Prelude.Tests.{ltb, if◌then◌else◌, Bool-cases}
use keycard.Prelude.Lists.{All, All-snoc, length, length-append, count_if-le-length}
use keycard.Prelude.Texts.{Text}
use keycard.Prelude.Ints.{ℤ, pos, negsuc}
use keycard.Prelude.Numbers.{
  negative, is_digit, is_blank, strip_left, strip_right, strip, digits_value, natural, signed,
  str_to_int, to_int, is_space,
}
use Prim.Native.Nat.{ℕ, zero, suc, ◌+◌, ◌*◌, ◌/◌, ◌%◌, ◌≤◌, ◌<◌}
use mathlib.Core.Path.{◌≡◌, refl}
use mathlib.Core.Logic.{inl, inr}
use mathlib.Core.Bool.{Bool, true, false}
use mathlib.Core.Option.{some}
use mathlib.Core.List.{[], ◌∷◌, ◌++◌, append_assoc, append-nil}
use native.Mathlib.Omega.{arith}

-- The last digit comes last; the fuel is the number itself, which has fewer digits than that.
unfoldable pub decimal_from : ℕ → ℕ → Text
decimal_from zero n = (b'0' + n) ∷ []
decimal_from (suc fuel) n =
    let front = decimal_from fuel (n / 10) in
    if ltb n 10 then (b'0' + n) ∷ [] else front ++ (b'0' + n % 10) ∷ []

unfoldable pub decimal : ℕ → Text
unfolding decimal_from
decimal n = decimal_from n n

abbrev pub IsDigit : ℕ → Type 0
IsDigit c = is_digit c ≡ true

digits-decimal_from :
    (fuel n : ℕ) (b : Bool) (rest : Text)
    → n ≤ fuel
    → digits_value 0 b (decimal_from fuel n ++ rest) ≡ digits_value n true rest
unfolding decimal_from digits_value
digits-decimal_from zero n b rest h = ground arith
digits-decimal_from (suc fuel) n b rest h = elim (Bool-cases (ltb n 10)) [
  | inl small ↦ ground arith
  | inr large ↦ ground (
    arith,
    append_assoc (decimal_from fuel (n / 10)) ((b'0' + n % 10) ∷ []) rest,
    digits-decimal_from fuel (n / 10) b ((b'0' + n % 10) ∷ rest),
  )
]

decimal_from-AllDigits : (fuel n : ℕ) → n ≤ fuel → All IsDigit (decimal_from fuel n)
unfolding decimal_from
decimal_from-AllDigits zero n h = ground arith
decimal_from-AllDigits (suc fuel) n h = elim (Bool-cases (ltb n 10)) [
  | inl small ↦ rw (small, decimal_from) (ground arith)
  | inr large ↦
      rw (large, decimal_from)
        (All-snoc IsDigit _ (decimal_from-AllDigits fuel (n / 10) (ground arith)) (ground arith))
]

-- A power of ten, and a number of digits that suffices below it.
abbrev pub pow10 : ℕ → ℕ
pow10 zero = 1
pow10 (suc k) = pow10 k * 10

length-decimal_from :
    (fuel n k : ℕ) → n ≤ fuel → n < pow10 (suc k) → length (decimal_from fuel n) ≤ suc k
unfolding decimal_from
length-decimal_from zero n k h b = omega arith
length-decimal_from (suc fuel) n zero h b = ground arith
length-decimal_from (suc fuel) n (suc k) h b = ground (
  arith,
  length-decimal_from fuel (n / 10) k,
  length-append (decimal_from fuel (n / 10)) ((b'0' + n % 10) ∷ []),
)

pub decimal-AllDigits : (n : ℕ) → All IsDigit (decimal n)
unfolding decimal
decimal-AllDigits n = decimal_from-AllDigits n n (omega arith)

-- `str` of an integer.
unfoldable pub show_int : ℤ → Text
show_int (pos n) = decimal n
show_int (negsuc n) = b'-' ∷ decimal (suc n)

abbrev pub magnitude : ℤ → ℕ
magnitude (pos n) = n
magnitude (negsuc n) = suc n

-- Whitespace is neither a digit nor a sign.
module _ (space : ℕ → Bool) (no_digit : (c : ℕ) → IsDigit c → space c ≡ false) where
  strip_right-AllDigits : (l : Text) → All IsDigit l → strip_right space l ≡ l
  unfolding strip_right
  strip_right-AllDigits [] h = refl
  strip_right-AllDigits (c ∷ l) h = ground (arith, no_digit c h.0, strip_right-AllDigits l h.1)

  pub strip-AllDigits : (l : Text) → All IsDigit l → strip space l ≡ l
  unfolding strip strip_left
  strip-AllDigits [] h = unfold strip_right in refl
  strip-AllDigits (c ∷ l) h = ground (arith, no_digit c h.0, strip_right-AllDigits (c ∷ l) h)

  pub strip-show_int : (z : ℤ) → space b'-' ≡ false → strip space (show_int z) ≡ show_int z
  unfolding show_int
  strip-show_int (pos n) h = strip-AllDigits (decimal n) (decimal-AllDigits n)
  strip-show_int (negsuc n) h =
      let digits = strip_right-AllDigits (decimal (suc n)) (decimal-AllDigits (suc n)) in
      unfold strip strip_left strip_right in ground (arith, digits)

pub digit-IsNoBlank : (c : ℕ) → IsDigit c → is_blank c ≡ false
digit-IsNoBlank c h = ground arith

pub digit-IsNoSpace : (c : ℕ) → IsDigit c → is_space c ≡ false
digit-IsNoSpace c h = ground arith

-- The value of a header field: the space in front is dropped.
pub strip-decimal : (n : ℕ) → strip is_blank (b' ' ∷ decimal n) ≡ decimal n
strip-decimal n =
    unfold strip strip_left in
    strip-AllDigits is_blank digit-IsNoBlank (decimal n) (decimal-AllDigits n)

signed-AllDigits :
    (l : Text) (n : ℕ)
    → All IsDigit l
    → length l ≤ 4300
    → digits_value 0 false l ≡ some n
    → signed l ≡ some (pos n)
unfolding signed natural
signed-AllDigits [] n h short e = unfold digits_value in cc
signed-AllDigits (c ∷ l) n h short e = ground (arith, count_if-le-length is_digit (c ∷ l))

pub digits-decimal : (n : ℕ) → digits_value 0 false (decimal n) ≡ some n
unfolding decimal digits_value
digits-decimal n =
    rw (← append-nil (decimal_from n n)) (digits-decimal_from n n false [] (omega arith))

decimal-short : (n : ℕ) → n < pow10 19 → length (decimal n) ≤ 4300
unfolding decimal
decimal-short n h =
    let l : length (decimal_from n n) ≤ 19 = length-decimal_from n n 18 (omega arith) h in
    omega arith

pub signed-show_int : (z : ℤ) → magnitude z < pow10 19 → signed (show_int z) ≡ some z
unfolding show_int
signed-show_int (pos n) h =
    signed-AllDigits (decimal n) n (decimal-AllDigits n) (decimal-short n h) (digits-decimal n)
signed-show_int (negsuc n) h =
    let short = decimal-short (suc n) h in
    unfold signed natural negative in
    ground (arith, short, digits-decimal (suc n), count_if-le-length is_digit (decimal (suc n)))

pub str_to_int-show_int : (z : ℤ) → magnitude z < pow10 19 → str_to_int (show_int z) ≡ some z
unfolding str_to_int
str_to_int-show_int z h = rw (strip-show_int is_blank digit-IsNoBlank z refl) (signed-show_int z h)

-- The same for `int` of bytes.
pub to_int-show_int : (z : ℤ) → magnitude z < pow10 19 → to_int (show_int z) ≡ some z
unfolding to_int
to_int-show_int z h = rw (strip-show_int is_space digit-IsNoSpace z refl) (signed-show_int z h)

-- Below ten to the nineteenth, and so for the length of anything that fits in memory, `int` reads
-- back what `str` has written.
pub str_to_int-decimal : (n : ℕ) → n < pow10 19 → str_to_int (decimal n) ≡ some (pos n)
str_to_int-decimal n h = unfold show_int in str_to_int-show_int (pos n) h
