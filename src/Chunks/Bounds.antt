-- ===== src/Chunks/Bounds.antt =====
-- The sizes of chunks (vfsindex/chunk.go).
use tacklr.Base.{
  ℕ, zero, suc, ◌+◌, ◌-◌, ◌^◌, ◌≤◌, ◌<◌, min, ◌≡◌, refl, subst, Option, none, some, List, [], ◌∷◌,
  length, Bytes, ℤ, pos, negsuc, arith,
}
use tacklr.Failure.{ok}
use tacklr.Chunks.{
  ChunkSizes, size_or, checked, with_defaults, Chunk, Cutter, flush, take_byte, cut_at, push,
  new_cutter, Source, read_test, yield_to, finish, after_test-ends, end_of-ends, feed, chunks,
}
use tacklr.Chunks.Cuts.{Sound, Taken, CutFits, take_byte-Taken, cut_at-CutFits, push-Sound}

abbrev pub size_of : Chunk → ℕ
size_of ch = ch.byte_end - ch.byte_start

abbrev AtMost : ChunkSizes → Chunk → Type 0
AtMost sizes ch = (1 ≤ size_of ch) × (size_of ch ≤ sizes.max_size)

abbrev Large : ChunkSizes → Chunk → Type 0
Large sizes ch = (min sizes.min_size (sizes.max_size - 3) ≤ size_of ch) × AtMost sizes ch

-- Chunks that are within the sizes, where the last may be small.
abbrev pub InBounds : ChunkSizes → List Chunk → Type 0
InBounds sizes [] = Unit
InBounds sizes (ch ∷ []) = AtMost sizes ch
InBounds sizes (ch ∷ next ∷ out) = Large sizes ch × InBounds sizes (next ∷ out)

InBounds-cons :
    (sizes : ChunkSizes) (ch : Chunk) (out : List Chunk)
    → Large sizes ch
    → InBounds sizes out
    → InBounds sizes (ch ∷ out)
InBounds-cons sizes ch [] large rest = large.1
InBounds-cons sizes ch (next ∷ out) large rest = (large, rest)

abbrev AllLarge : ChunkSizes → Option Chunk → Type 0
AllLarge sizes none = Unit
AllLarge sizes (some ch) = Large sizes ch

flush-AllLarge : (n : ℕ) (c : Cutter) → Taken c → CutFits c n → AllLarge c.sizes (flush n c).0
unfolding flush
flush-AllLarge zero c h cut = tt
flush-AllLarge (suc n) c h cut =
    (omega (arith, cut.large (omega arith)), (omega arith, omega (arith, cut.inside, h.full)))

push-AllLarge : (b : ℕ) (c : Cutter) → Sound c → AllLarge c.sizes (push b c).0
unfolding push take_byte
push-AllLarge b c h =
    let taken = take_byte-Taken b c h in
    flush-AllLarge (cut_at b (take_byte b c)) (take_byte b c) taken
      (cut_at-CutFits b (take_byte b c) taken)

flush-sizes : (n : ℕ) (c : Cutter) → (flush n c).1.sizes ≡ c.sizes
unfolding flush
flush-sizes zero c = refl
flush-sizes (suc n) c = refl

push-sizes : (b : ℕ) (c : Cutter) → (push b c).1.sizes ≡ c.sizes
unfolding push take_byte
push-sizes b c = flush-sizes (cut_at b (take_byte b c)) (take_byte b c)

finish_from :
    (n : ℕ) (c : Cutter) → n ≤ c.sizes.max_size → InBounds c.sizes (yield_to (flush n c).0 [])
unfolding flush
finish_from zero c le = tt
finish_from (suc n) c le = (omega arith, omega (arith, le))

finish-InBounds : (c : Cutter) → Sound c → InBounds c.sizes (finish c)
unfolding finish
finish-InBounds c h = finish_from (length c.buf) c (omega (arith, h.room))

yield_to-InBounds :
    (sizes : ChunkSizes) (o : Option Chunk) (out : List Chunk)
    → AllLarge sizes o
    → InBounds sizes out
    → InBounds sizes (yield_to o out)
yield_to-InBounds sizes none out large rest = rest
yield_to-InBounds sizes (some ch) out large rest = InBounds-cons sizes ch out large rest

feed-InBounds :
    (src : Source) (bs : Bytes) (read : ℕ) (c : Cutter)
    → Sound c
    → InBounds c.sizes (feed src read c bs).0
unfolding feed
feed-InBounds src [] read c h =
    let left = finish-InBounds c h in
    after_test-ends (InBounds c.sizes) (read_test src read) c _
      (end_of-ends (InBounds c.sizes) src.ends c left tt) left tt
feed-InBounds src (b ∷ bs) read c h =
    let rest =
      subst (λ sizes. InBounds sizes (feed src (read + 1) (push b c).1 bs).0) (push-sizes b c)
        (feed-InBounds src bs (read + 1) (push b c).1 (push-Sound b c h)) in
    after_test-ends (InBounds c.sizes) (read_test src read) c _
      (yield_to-InBounds c.sizes (push b c).0 _ (push-AllLarge b c h) rest) (finish-InBounds c h) tt

-- Sizes that passed the checks.
record Ordered (sizes : ChunkSizes) (small : Option ℕ) : Type 0 where
  given : small ≡ some sizes.min_size
  below : sizes.min_size < sizes.avg_size
  above : sizes.avg_size ≤ sizes.max_size
  wide : 4 ≤ sizes.max_size

checked-Ordered :
    (small mean large : Option ℕ) (sizes : ChunkSizes)
    → checked small mean large ≡ ok sizes
    → Ordered sizes small
unfolding checked
checked-Ordered none mean large sizes h = absurd (cc h)
checked-Ordered (some a) none large sizes h = absurd (cc h)
checked-Ordered (some a) (some b) none sizes h = absurd (cc h)
checked-Ordered (some a) (some b) (some c) sizes h = ground arith

size_or_positive : (z : ℤ) (d n : ℕ) → 1 ≤ d → size_or z d ≡ some n → 1 ≤ n
size_or_positive (pos zero) d n le h = ground arith
size_or_positive (pos (suc k)) d n le h = ground arith
size_or_positive (negsuc k) d n le h = absurd (cc h)

pub new_cutter-Sound :
    (small mean large : ℤ) (sizes : ChunkSizes)
    → with_defaults small mean large ≡ ok sizes
    → Sound (new_cutter sizes)
unfolding with_defaults
new_cutter-Sound small mean large sizes h =
    let o = checked-Ordered _ _ _ sizes h in
    record {
      room = omega (arith, o.wide);
      wide = o.wide;
      some_min = size_or_positive small (2 ^ 10) sizes.min_size (omega arith) o.given;
      fits = omega (arith, o.below, o.above);
      nl = omega arith;
      due = λ due. absurd (cc due);
    }

-- With sizes that pass the checks, each chunk of a file has a byte at least and `Max` at most, and each
-- chunk but the last has `Min` bytes at least, or `Max - 3` where that is less.
pub chunks-InBounds :
    (small mean large : ℤ) (sizes : ChunkSizes) (src : Source) (bytes : Bytes)
    → with_defaults small mean large ≡ ok sizes
    → InBounds sizes (chunks src sizes bytes).0
unfolding chunks
chunks-InBounds small mean large sizes src bytes h =
    feed-InBounds src bytes 0 (new_cutter sizes) (new_cutter-Sound small mean large sizes h)
