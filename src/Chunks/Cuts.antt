-- ===== src/Chunks/Cuts.antt =====
-- Where `push` cuts the buffer (vfsindex/chunk.go).
use tacklr.Base.{
  ℕ, zero, suc, ◌+◌, ◌-◌, ◌≤◌, ◌<◌, min, ◌≡◌, refl, true, [], ◌∷◌, length, length-append,
  length-take, length-drop, take, drop, Bytes, full_rune, rune_size, arith,
}
use tacklr.Chunks.{Cutter, rune_back, rune_start, after_last_nl, take_byte, flush, cut_at, push}

rune_size-le : (c : ℕ) → rune_size c ≤ 4
rune_size-le c = ground arith

full_rune_four : (s : Bytes) → 4 ≤ length s → full_rune s ≡ true
unfolding full_rune
full_rune_four [] le = absurd (omega (arith, le))
full_rune_four (a ∷ []) le = absurd (omega (arith, le))
full_rune_four (a ∷ b ∷ []) le = absurd (omega (arith, le))
full_rune_four (a ∷ b ∷ c ∷ s) le = ground (arith, rune_size-le a)

-- A cut before a rune takes three bytes off at most.
abbrev NearEnd : ℕ → ℕ → Type 0
NearEnd n r = (r ≤ n) × (n ≤ r + 3)

rune_back-NearEnd :
    (k : ℕ) (b : Bytes) (n i : ℕ)
    → n ≤ length b
    → i ≤ n
    → n ≤ i + (4 - k)
    → k ≤ 4
    → NearEnd n (rune_back k b n i)
unfolding rune_back
rune_back-NearEnd zero b n i inside le far k_le = (omega arith, omega arith)
rune_back-NearEnd (suc k) b n zero inside le far k_le = (omega arith, omega arith)
rune_back-NearEnd (suc k) b n (suc i) inside le far k_le =
    let slice = drop i (take n b) in
    let whole = full_rune_four slice in
    ground
      (arith, whole, length-drop i (take n b), length-take n b, rune_back-NearEnd k b n i inside)

rune_start-NearEnd : (b : Bytes) → NearEnd (length b) (rune_start b (length b))
unfolding rune_start
rune_start-NearEnd b =
    rune_back-NearEnd 4 b (length b) (length b) (omega arith) (omega arith) (omega arith)
      (omega arith)

-- A cutter between two pushes.
pub record Sound (c : Cutter) : Type 0 where
  pub room : length c.buf < c.sizes.max_size
  pub wide : 4 ≤ c.sizes.max_size
  pub some_min : 1 ≤ c.sizes.min_size
  pub fits : c.sizes.min_size ≤ c.sizes.max_size
  pub nl : c.last_nl ≤ length c.buf
  pub due : c.pending ≡ true → c.sizes.min_size ≤ length c.buf

-- A cutter that took a byte.
pub record Taken (c : Cutter) : Type 0 where
  pub full : length c.buf ≤ c.sizes.max_size
  pub some_byte : 1 ≤ length c.buf
  pub wide : 4 ≤ c.sizes.max_size
  pub some_min : 1 ≤ c.sizes.min_size
  pub fits : c.sizes.min_size ≤ c.sizes.max_size
  pub nl : c.last_nl ≤ length c.buf
  pub due : c.pending ≡ true → c.sizes.min_size ≤ length c.buf

pub take_byte-Taken : (b : ℕ) (c : Cutter) → Sound c → Taken (take_byte b c)
unfolding take_byte
take_byte-Taken b c h =
    let more = length-append c.buf (b ∷ []) in
    record {
      full = omega (arith, more, h.room);
      some_byte = omega (arith, more);
      wide = h.wide;
      some_min = h.some_min;
      fits = h.fits;
      nl = ground (arith, more, h.nl);
      due = λ due. ground (arith, more, h.due);
    }

-- The least chunk that is not the last of its file.
abbrev pub least : Cutter → ℕ
least c = min c.sizes.min_size (c.sizes.max_size - 3)

-- A cut is in the buffer, and leaves no chunk smaller than the least.
pub record CutFits (c : Cutter) (n : ℕ) : Type 0 where
  pub inside : n ≤ length c.buf
  pub large : 0 < n → least c ≤ n
  pub room : n ≡ 0 → length c.buf < c.sizes.max_size

pub cut_at-CutFits : (b : ℕ) (c : Cutter) → Taken c → CutFits c (cut_at b c)
unfolding cut_at
cut_at-CutFits b c h =
    let near = rune_start-NearEnd c.buf in
    record {
      inside = ground (arith, near.0, h.nl);
      large = ground (arith, near.1, h.due, h.full);
      room = ground (arith, near.1, h.some_byte, h.full, h.wide, h.some_min);
    }

after_last_nl-le : (s : Bytes) → after_last_nl s ≤ length s
unfolding after_last_nl
after_last_nl-le [] = omega arith
after_last_nl-le (c ∷ s) = ground (arith, after_last_nl-le s)

pub flush-Sound : (n : ℕ) (c : Cutter) → Taken c → CutFits c n → Sound (flush n c).1
unfolding flush
flush-Sound zero c h cut = record {
  room = cut.room refl;
  wide = h.wide;
  some_min = h.some_min;
  fits = h.fits;
  nl = h.nl;
  due = h.due;
}
flush-Sound (suc n) c h cut = record {
  room = omega (arith, length-drop (suc n) c.buf, h.full, h.some_byte);
  wide = h.wide;
  some_min = h.some_min;
  fits = h.fits;
  nl = after_last_nl-le (drop (suc n) c.buf);
  due = λ due. absurd (cc due);
}

pub push-Sound : (b : ℕ) (c : Cutter) → Sound c → Sound (push b c).1
unfolding push
push-Sound b c h =
    let taken = take_byte-Taken b c h in
    flush-Sound (cut_at b (take_byte b c)) (take_byte b c) taken
      (cut_at-CutFits b (take_byte b c) taken)
