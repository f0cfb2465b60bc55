-- ===== src/Chunks.antt =====
-- The content-defined chunks of a file (vfsindex/chunk.go). A reader is the bytes that it gives and what ends
-- them, and the context is what `Err` says at each read; a size that a caller gives is an integer. Words of 64
-- bits are numbers with their wrap-around.
pub mod Cuts
pub mod Tiles
pub mod Bounds
pub mod Resync
mod Tests
use tacklr.Base.{
  ℕ, zero, suc, ◌+◌, ◌-◌, ◌*◌, ◌/◌, ◌%◌, ◌^◌, min, bit_and, bit_xor, Bool, true, false, not, ◌&&◌,
  ◌||◌, ltb, leb, ◌==◌, Option, none, some, List, [], ◌∷◌, ◌++◌, length, take, drop, count,
  get_elem?, Bytes, codes, any, ℤ, pos, negsuc, starts_rune, full_rune, valid_utf8, if◌then◌else◌,
}
use tacklr.Failure.{Failure, Result, ok, err, plain}

-- `ChunkSizes`, checked.
pub record ChunkSizes : Type 0 where
  pub min_size : ℕ
  pub avg_size : ℕ
  pub max_size : ℕ

abbrev pub default_chunk_sizes : ChunkSizes
default_chunk_sizes = record { min_size = 2 ^ 10; avg_size = 2 * 2 ^ 10; max_size = 8 * 2 ^ 10 }

-- `cmp.Or` of a size and its default; `none` is a negative size.
abbrev size_or : ℤ → ℕ → Option ℕ
size_or (pos zero) d = some d
size_or (pos (suc n)) d = some (suc n)
size_or (negsuc n) d = none

bad_sizes : Failure
bad_sizes = plain (codes "vfsindex: chunk sizes need Min < Avg <= Max and Max >= 4")

checked : Option ℕ → Option ℕ → Option ℕ → Result ChunkSizes
unfolding bad_sizes
checked (some small) (some mean) (some large) =
    if leb mean small || ltb large mean || ltb large 4
    then err bad_sizes
    else ok (record { min_size = small; avg_size = mean; max_size = large })
checked _ _ _ = err bad_sizes

-- `withDefaults`
unfoldable pub with_defaults : ℤ → ℤ → ℤ → Result ChunkSizes
unfolding checked
with_defaults small mean large =
    let d = default_chunk_sizes in
    checked (size_or small d.min_size) (size_or mean d.avg_size) (size_or large d.max_size)

-- `chunk`
pub record Chunk : Type 0 where
  pub text : Bytes
  pub start_line : ℕ
  pub end_line : ℕ
  pub byte_start : ℕ
  pub byte_end : ℕ

-- `cutter`
pub record Cutter : Type 0 where
  pub sizes : ChunkSizes
  pub mask : ℕ
  pub hash : ℕ
  pub pending : Bool
  pub buf : Bytes
  pub last_nl : ℕ
  pub line : ℕ
  pub offset : ℕ

-- `gearTable`: splitmix64 from a fixed seed.
seed : ℕ
seed = 0x9e3779b97f4a7c15

gear_state : ℕ → ℕ
unfolding seed
gear_state zero = seed
gear_state (suc i) = (gear_state i + seed) % 2 ^ 64

mix : ℕ → ℕ
mix x =
    let y = bit_xor x (x / 2 ^ 30) * 0xbf58476d1ce4e5b9 % 2 ^ 64 in
    let z = bit_xor y (y / 2 ^ 27) * 0x94d049bb133111eb % 2 ^ 64 in bit_xor z (z / 2 ^ 31)

unfoldable pub gear : ℕ → ℕ
unfolding gear_state mix
gear b = mix (gear_state (suc b))

-- `bits.Len`: a number has at most as many digits as its value.
bit_length : ℕ → ℕ → ℕ
bit_length zero n = 0
bit_length (suc fuel) n = elim (n == 0) [ true ↦ 0 | false ↦ suc (bit_length fuel (n / 2)) ]

-- `cutMask`
unfoldable pub cut_mask : ChunkSizes → ℕ
unfolding bit_length
cut_mask s =
    let n = s.avg_size - s.min_size - 1 in (2 ^ 64 - 1) * 2 ^ (64 - bit_length n n) % 2 ^ 64

-- The byte of a slice; `runeStart` reads inside it only.
abbrev byte_at : ℕ → Bytes → ℕ
byte_at i b = elim (get_elem? b i) [ none ↦ 0 | some c ↦ c ]

-- The loop of `runeStart`, which looks back at four bytes at most.
rune_back : ℕ → Bytes → ℕ → ℕ → ℕ
rune_back zero b n i = n
rune_back (suc k) b n zero = n
rune_back (suc k) b n (suc i) = elim (starts_rune (byte_at i b)) [
  | true ↦ if full_rune (drop i (take n b)) then n else i
  | false ↦ rune_back k b n i
]

-- `runeStart`
unfoldable pub rune_start : Bytes → ℕ → ℕ
unfolding rune_back
rune_start b n = rune_back 4 b n n

-- `isBinarySample`
unfoldable pub is_binary_sample : Bytes → Bool
is_binary_sample sample =
    not (length sample == 0)
    && (any (λ c. c == 0) sample
        || not (valid_utf8 (take (rune_start sample (length sample)) sample)))

abbrev newlines : Bytes → ℕ
newlines s = count (λ c. c == b'\n') s

-- `bytes.TrimSuffix` of a byte.
unfoldable pub trim_suffix : ℕ → Bytes → Bytes
trim_suffix c [] = []
trim_suffix c (x ∷ []) = if x == c then [] else x ∷ []
trim_suffix c (x ∷ y ∷ s) = x ∷ trim_suffix c (y ∷ s)

unfoldable pub ends_in : ℕ → Bytes → Bool
ends_in c [] = false
ends_in c (x ∷ []) = x == c
ends_in c (x ∷ y ∷ s) = ends_in c (y ∷ s)

-- The text of a chunk: its bytes without the line end.
abbrev pub chunk_text : Bytes → Bytes
chunk_text span = trim_suffix b'\r' (trim_suffix b'\n' span)

-- `bytes.LastIndexByte` of the line end, plus one: 0 when there is none.
unfoldable pub after_last_nl : Bytes → ℕ
after_last_nl [] = 0
after_last_nl (c ∷ s) = elim (after_last_nl s) [
  | zero ↦ if c == b'\n' then 1 else 0
  | suc n ↦ suc (suc n)
]

-- The last line of a span that starts at a line.
abbrev pub end_line_of : ℕ → Bytes → ℕ
end_line_of line span =
    if ends_in b'\n' span then line + newlines span - 1 else line + newlines span

-- `flush`
unfoldable pub flush : ℕ → Cutter → Option Chunk × Cutter
flush zero c = (none, c)
flush (suc n) c =
    let span = take (suc n) c.buf in
    let rest = drop (suc n) c.buf in
    (
      some (record {
        text = chunk_text span;
        start_line = c.line;
        end_line = end_line_of c.line span;
        byte_start = c.offset;
        byte_end = c.offset + suc n;
      }),
      record c {
        line = c.line + newlines span;
        offset = c.offset + suc n;
        buf = rest;
        last_nl = after_last_nl rest;
        pending = false;
      },
    )

-- The byte joins the buffer and the hash, and may be a cut point.
unfoldable pub take_byte : ℕ → Cutter → Cutter
take_byte b c =
    let buf = c.buf ++ b ∷ [] in
    let hash = (c.hash * 2 + gear b) % 2 ^ 64 in
    record c {
      buf = buf;
      hash = hash;
      pending = c.pending || leb c.sizes.min_size (length buf) && bit_and hash c.mask == 0;
      last_nl = if b == b'\n' then length buf else c.last_nl;
    }

-- Where `push` cuts the buffer; 0 where it does not.
unfoldable pub cut_at : ℕ → Cutter → ℕ
cut_at b c =
    if b == b'\n' && c.pending
    then length c.buf
    else if ltb (length c.buf) c.sizes.max_size
    then 0
    else if leb c.sizes.min_size c.last_nl
    then c.last_nl
    else rune_start c.buf (length c.buf)

-- `push`
unfoldable pub push : ℕ → Cutter → Option Chunk × Cutter
push b c = let c' = take_byte b c in flush (cut_at b c') c'

abbrev pub new_cutter : ChunkSizes → Cutter
new_cutter sizes = record {
  sizes = sizes;
  mask = cut_mask sizes;
  hash = 0;
  pending = false;
  buf = [];
  last_nl = 0;
  line = 1;
  offset = 0;
}

-- What the loop of `chunks` goes by: what `ctx.Err` says at a read, the end of the reader (`none` is the end of the file), and the limit of bytes,
-- where 0 is none.
pub record Source : Type 0 where
  pub cancelled : ℕ → Option Failure
  pub ends : Option Failure
  pub max_bytes : ℕ

pub data ReadTest : Type 0 where
  reads : ReadTest
  at_limit : ReadTest
  stops : Failure → ReadTest

abbrev pub test_context : Bool → Option Failure → ReadTest
test_context true (some e) = stops e
test_context _ _ = reads

-- The loop's condition and its look at the context, every 64 KiB.
unfoldable pub read_test : Source → ℕ → ReadTest
read_test src read =
    if src.max_bytes == 0 || ltb read src.max_bytes
    then test_context (read % 65536 == 0) (src.cancelled read)
    else at_limit

abbrev pub yield_to : Option Chunk → List Chunk → List Chunk
yield_to none out = out
yield_to (some ch) out = ch ∷ out

-- The end of the loop: what is left is a chunk.
unfoldable pub finish : Cutter → List Chunk
finish c = yield_to (flush (length c.buf) c).0 []

abbrev pub end_of : Option Failure → Cutter → List Chunk × Option Failure
end_of none c = (finish c, none)
end_of (some e) c = ([], some e)

-- A pass of the loop goes on, or it is the last.
unfoldable pub after_test :
    ReadTest → Cutter → List Chunk × Option Failure → List Chunk × Option Failure
after_test reads c rest = rest
after_test at_limit c rest = (finish c, none)
after_test (stops e) c rest = ([], some e)

-- The loop of `chunks`: what it yields to a consumer that takes it all, and the error it ends with.
unfoldable pub feed : Source → ℕ → Cutter → Bytes → List Chunk × Option Failure
unfolding after_test
feed src read c [] = after_test (read_test src read) c (end_of src.ends c)
feed src read c (b ∷ bs) =
    let (ch, c') = push b c in
    let (out, e) = feed src (read + 1) c' bs in
    after_test (read_test src read) c (yield_to ch out, e)

-- `chunks`
unfoldable pub chunks : Source → ChunkSizes → Bytes → List Chunk × Option Failure
chunks src sizes bytes = feed src 0 (new_cutter sizes) bytes

-- What holds of what follows a pass, and of each way to end there, holds after it.
pub after_test-ends {ℓ} :
    (P : List Chunk → Type ℓ) (t : ReadTest) (c : Cutter) (rest : List Chunk × Option Failure)
    → P rest.0
    → P (finish c)
    → P []
    → P (after_test t c rest).0
unfolding after_test
after_test-ends P reads c rest r f n = r
after_test-ends P at_limit c rest r f n = f
after_test-ends P (stops e) c rest r f n = n

pub end_of-ends {ℓ} :
    (P : List Chunk → Type ℓ) (e : Option Failure) (c : Cutter)
    → P (finish c)
    → P []
    → P (end_of e c).0
end_of-ends P none c f n = f
end_of-ends P (some e) c f n = n
