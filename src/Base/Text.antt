-- ===== src/Base/Text.antt =====
-- Go strings and byte slices: lists of bytes.
use Prim.Native.Nat.{ℕ, zero, suc, ◌+◌, ◌-◌, ◌*◌, ◌<◌, ◌/◌, ◌%◌}
use Prim.Native.Char.{code}
use Prim.Native.String.{String}
use mathlib.Core.Path.{◌≡◌, refl, sym, ◌∙◌, ap}
use mathlib.Core.Logic.{◌↔◌, inl, inr}
use mathlib.Core.Bool.{Bool, true, false, ◌&&◌}
use mathlib.Core.List.{List, [], ◌∷◌}
use native.Mathlib.Omega.{arith}
use tacklr.Base.Tests.{◌==◌, ltb, leb, ltb-false→le, Bool-cases}

abbrev pub Bytes : Type 0
Bytes = List ℕ

-- The bytes of an ASCII literal.
abbrev pub codes : String → Bytes
codes String.[] = []
codes (String.◌∷◌ c s) = code c ∷ codes s

unfoldable pub text_eq : Bytes → Bytes → Bool
text_eq [] [] = true
text_eq (x ∷ xs) (y ∷ ys) = x == y && text_eq xs ys
text_eq _ _ = false

pub text_eq_iff : (a b : Bytes) → (text_eq a b ≡ true) ↔ (a ≡ b)
unfolding text_eq
text_eq_iff (x ∷ a) (y ∷ b) = ground (arith, text_eq_iff a b)
text_eq_iff _ _ = ground arith

pub text_eq_refl : (a : Bytes) → text_eq a a ≡ true
text_eq_refl a = (text_eq_iff a a).1 (λ i. a)

abbrev pub is_empty : Bytes → Bool
is_empty [] = true
is_empty (_ ∷ _) = false

-- `strings.HasPrefix`
unfoldable pub has_prefix : Bytes → Bytes → Bool
has_prefix s [] = true
has_prefix [] (y ∷ ys) = false
has_prefix (x ∷ xs) (y ∷ ys) = x == y && has_prefix xs ys

decimal_digits : ℕ → ℕ → Bytes → Bytes
decimal_digits zero n acc = acc
decimal_digits (suc fuel) n acc = elim (ltb n 10) [
  | true ↦ (b'0' + n) ∷ acc
  | false ↦ decimal_digits fuel (n / 10) ((b'0' + n % 10) ∷ acc)
]

-- `%d`: a number has fewer digits than one more than itself.
unfoldable pub decimal : ℕ → Bytes
unfolding decimal_digits
decimal n = decimal_digits (suc n) n []

-- The number that digits read as, after one read before them.
unfoldable pub read_digits : ℕ → Bytes → ℕ
read_digits n [] = n
read_digits n (c ∷ cs) = read_digits (10 * n + (c - b'0')) cs

read_digits-decimal_digits :
    (fuel n : ℕ) (acc : Bytes)
    → n < fuel
    → read_digits 0 (decimal_digits fuel n acc) ≡ read_digits n acc
unfolding read_digits decimal_digits
read_digits-decimal_digits zero n acc le = absurd (omega (arith, le))
read_digits-decimal_digits (suc fuel) n acc le = elim (Bool-cases (ltb n 10)) [
  | inl small ↦ rw (small, decimal_digits, read_digits) (ap (λ d. read_digits d acc) (omega arith))
  | inr large ↦
      let big = ltb-false→le n 10 large in
      rw (large, decimal_digits)
        (read_digits-decimal_digits fuel (n / 10) ((b'0' + n % 10) ∷ acc) (omega (arith, le, big))
          ∙ ap (λ d. read_digits d acc) (omega arith))
]

-- Numbers print differently.
pub decimal_injective : (a b : ℕ) → decimal a ≡ decimal b → a ≡ b
unfolding decimal read_digits
decimal_injective a b same =
    sym (read_digits-decimal_digits (suc a) a [] (omega arith))
    ∙ (ap (read_digits 0) same ∙ read_digits-decimal_digits (suc b) b [] (omega arith))

-- Digits, one at least.
abbrev pub is_digit : ℕ → Bool
is_digit c = leb b'0' c && leb c b'9'

abbrev pub all_digits : Bytes → Bool
all_digits [] = true
all_digits (c ∷ s) = is_digit c && all_digits s

abbrev pub are_digits : Bytes → Bool
are_digits [] = false
are_digits (c ∷ s) = all_digits (c ∷ s)

all_digits-decimal_digits :
    (fuel n : ℕ) (acc : Bytes) → n < fuel → are_digits (decimal_digits fuel n acc) ≡ all_digits acc
unfolding decimal_digits
all_digits-decimal_digits zero n acc le = absurd (omega (arith, le))
all_digits-decimal_digits (suc fuel) n acc le = elim (Bool-cases (ltb n 10)) [
  | inl small ↦
      let digit : is_digit (b'0' + n) ≡ true = ground (arith, small) in
      rw (small, decimal_digits, digit) refl
  | inr large ↦
      let big = ltb-false→le n 10 large in
      let digit : is_digit (b'0' + n % 10) ≡ true = ground arith in
      rw (large, decimal_digits)
        (all_digits-decimal_digits fuel (n / 10) ((b'0' + n % 10) ∷ acc) (omega (arith, le, big))
          ∙ rw digit refl)
]

pub decimal-are_digits : (n : ℕ) → are_digits (decimal n) ≡ true
unfolding decimal
decimal-are_digits n = all_digits-decimal_digits (suc n) n [] (omega arith)

pub read_digits-decimal : (n : ℕ) → read_digits 0 (decimal n) ≡ n
unfolding decimal read_digits
read_digits-decimal n = read_digits-decimal_digits (suc n) n [] (omega arith)
