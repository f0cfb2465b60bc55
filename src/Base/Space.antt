-- ===== src/Base/Space.antt =====
-- `strings.TrimSpace`: the white space of Unicode in its UTF-8 bytes.
use Prim.Native.Nat.{ℕ, zero, suc}
use mathlib.Core.Bool.{Bool, true, ◌&&◌, ◌||◌}
use mathlib.Core.Path.{◌≡◌, refl, ◌∙◌}
use native.Mathlib.Omega.{arith}
use mathlib.Core.List.{[], ◌∷◌, reverse, reverse_aux, reverse-reverse}
use tacklr.Base.Tests.{◌==◌, leb, if◌then◌else◌}
use tacklr.Base.Lists.{length, drop}
use tacklr.Base.Text.{Bytes}

abbrev is_space1 : ℕ → Bool
is_space1 a = a == b' ' || (leb 9 a && leb a 13)

-- U+0085 and U+00A0
abbrev is_space2 : ℕ → ℕ → Bool
is_space2 a b = a == 0xC2 && (b == 0x85 || b == 0xA0)

-- U+1680, U+2000 to U+200A, U+2028, U+2029, U+202F, U+205F and U+3000
abbrev is_space3 : ℕ → ℕ → ℕ → Bool
is_space3 a b c =
    (a == 0xE1 && b == 0x9A && c == 0x80)
    || (a == 0xE2
        && b == 0x80
        && ((leb 0x80 c && leb c 0x8A) || c == 0xA8 || c == 0xA9 || c == 0xAF))
    || (a == 0xE2 && b == 0x81 && c == 0x9F)
    || (a == 0xE3 && b == 0x80 && c == 0x80)

-- The bytes of the white space rune that the text begins with, or 0.
space_length : Bytes → ℕ
space_length [] = 0
space_length (a ∷ []) = if is_space1 a then 1 else 0
space_length (a ∷ b ∷ []) = if is_space1 a then 1 else if is_space2 a b then 2 else 0
space_length (a ∷ b ∷ c ∷ s) =
    if is_space1 a then 1 else if is_space2 a b then 2 else if is_space3 a b c then 3 else 0

-- The same of a reversed text: the rune that it ends with.
space_length_back : Bytes → ℕ
space_length_back [] = 0
space_length_back (a ∷ []) = if is_space1 a then 1 else 0
space_length_back (b ∷ a ∷ []) = if is_space1 b then 1 else if is_space2 a b then 2 else 0
space_length_back (c ∷ b ∷ a ∷ s) =
    if is_space1 c then 1 else if is_space2 b c then 2 else if is_space3 a b c then 3 else 0

-- Each round drops a byte at least, so the length of the text is fuel enough.
strip : (Bytes → ℕ) → ℕ → Bytes → Bytes
strip spaces zero s = s
strip spaces (suc fuel) s = elim (spaces s) [
  | zero ↦ s
  | suc n ↦ strip spaces fuel (drop (suc n) s)
]

unfoldable pub trim_space : Bytes → Bytes
unfolding strip space_length space_length_back
trim_space s =
    let left = strip space_length (length s) s in
    reverse (strip space_length_back (length left) (reverse left))

-- Printed ASCII but the space.
abbrev pub all_plain : Bytes → Bool
all_plain [] = true
all_plain (c ∷ s) = leb 33 c && leb c 126 && all_plain s

all_plain-reverse_aux : (s t : Bytes) → all_plain (reverse_aux s t) ≡ (all_plain s && all_plain t)
all_plain-reverse_aux [] t = refl
all_plain-reverse_aux (c ∷ s) t = all_plain-reverse_aux s (c ∷ t) ∙ ground arith

space_length-plain : (s : Bytes) → all_plain s ≡ true → space_length s ≡ 0
unfolding space_length
space_length-plain [] h = refl
space_length-plain (a ∷ []) h = ground (arith, h)
space_length-plain (a ∷ b ∷ []) h = ground (arith, h)
space_length-plain (a ∷ b ∷ c ∷ s) h = ground (arith, h)

space_length_back-plain : (s : Bytes) → all_plain s ≡ true → space_length_back s ≡ 0
unfolding space_length_back
space_length_back-plain [] h = refl
space_length_back-plain (a ∷ []) h = ground (arith, h)
space_length_back-plain (a ∷ b ∷ []) h = ground (arith, h)
space_length_back-plain (a ∷ b ∷ c ∷ s) h = ground (arith, h)

strip-plain : (spaces : Bytes → ℕ) (fuel : ℕ) (s : Bytes) → spaces s ≡ 0 → strip spaces fuel s ≡ s
unfolding strip
strip-plain spaces zero s h = refl
strip-plain spaces (suc fuel) s h = rw (strip, h) refl

pub trim_space-plain : (s : Bytes) → all_plain s ≡ true → trim_space s ≡ s
unfolding trim_space
trim_space-plain s h =
    let back : all_plain (reverse s) ≡ true = all_plain-reverse_aux s [] ∙ ground (arith, h) in
    rw
      (
        strip-plain space_length (length s) s (space_length-plain s h),
        strip-plain space_length_back (length s) (reverse s)
            (space_length_back-plain (reverse s) back),
      )
      (reverse-reverse s)
