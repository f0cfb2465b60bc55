-- ===== src/Base/Utf8.antt =====
-- The package unicode/utf8 on bytes.
use Prim.Native.Nat.{ℕ, zero, suc}
use mathlib.Core.Bool.{Bool, false, not, ◌&&◌, ◌||◌}
use mathlib.Core.Option.{Option, none, some}
use mathlib.Core.List.{[], ◌∷◌}
use tacklr.Base.Tests.{◌==◌, ltb, leb, if◌then◌else◌}
use tacklr.Base.Lists.{length}
use tacklr.Base.Text.{Bytes}

-- `utf8.RuneStart`: not 10xxxxxx.
abbrev pub starts_rune : ℕ → Bool
starts_rune c = ltb c 0x80 || leb 0xC0 c

-- The bytes of the rune that a byte begins; an invalid byte stands alone.
abbrev pub rune_size : ℕ → ℕ
rune_size c =
    if ltb c 0xC2
    then 1
    else if ltb c 0xE0
    then 2
    else if ltb c 0xF0
    then 3
    else if ltb c 0xF5
    then 4
    else 1

-- The range of a rune's second byte.
abbrev second_low : ℕ → ℕ
second_low c = if c == 0xE0 then 0xA0 else if c == 0xF0 then 0x90 else 0x80

abbrev second_high : ℕ → ℕ
second_high c = if c == 0xED then 0x9F else if c == 0xF4 then 0x8F else 0xBF

abbrev in_range : ℕ → ℕ → ℕ → Bool
in_range low high c = leb low c && leb c high

-- `utf8.FullRune`: the bytes that are there, when they are fewer than the rune's, may still be a rune's.
unfoldable pub full_rune : Bytes → Bool
full_rune [] = false
full_rune (a ∷ []) = leb (rune_size a) 1
full_rune (a ∷ b ∷ []) = leb (rune_size a) 2 || not (in_range (second_low a) (second_high a) b)
full_rune (a ∷ b ∷ c ∷ s) =
    leb (rune_size a) (length (a ∷ b ∷ c ∷ s))
    || not (in_range (second_low a) (second_high a) b)
    || not (in_range 0x80 0xBF c)

-- Within a rune: how many bytes it still has, and the range of the next.
record Expect : Type 0 where
  more : ℕ
  low : ℕ
  high : ℕ

abbrev between : Expect
between = record { more = 0; low = 0; high = 0 }

abbrev expects : ℕ → ℕ → Option Expect
expects zero c = none
expects (suc zero) c = if ltb c 0x80 then some between else none
expects (suc (suc n)) c = some (record { more = suc n; low = second_low c; high = second_high c })

accept : Expect → ℕ → Option Expect
accept e c = elim e.more [
  | zero ↦ expects (rune_size c) c
  | suc n ↦
      if in_range e.low e.high c then some (record { more = n; low = 0x80; high = 0xBF }) else none
]

valid_from : Expect → Bytes → Bool
unfolding accept
valid_from e [] = e.more == 0
valid_from e (c ∷ s) = elim (accept e c) [ none ↦ false | some e' ↦ valid_from e' s ]

-- `utf8.Valid`
unfoldable pub valid_utf8 : Bytes → Bool
unfolding valid_from
valid_utf8 s = valid_from between s
