-- ===== src/Chunks/Tiles.antt =====
-- The spans, texts and lines of a file's chunks (vfsindex/chunk.go).
use tacklr.Base.{
  ℕ, zero, suc, ◌+◌, ◌-◌, ◌%◌, ◌≤◌, ◌<◌, ◌≡◌, refl, ◌∙◌, ap, subst, Bool, true, false, ◌==◌, none,
  List, [], ◌∷◌, ◌++◌, append_assoc, append-nil, length, take, drop, Bytes, ℤ, arith,
}
use tacklr.Failure.{ok}
use tacklr.Chunks.{
  ChunkSizes, with_defaults, Chunk, Cutter, newlines, chunk_text, end_line_of, flush, take_byte,
  cut_at, push, new_cutter, Source, test_context, read_test, reads, yield_to, finish, after_test,
  feed, chunks,
}
use tacklr.Chunks.Cuts.{Sound, take_byte-Taken, cut_at-CutFits, push-Sound}
use tacklr.Chunks.Bounds.{new_cutter-Sound}

-- A reader that ends with its file, with no limit and no cancel.
abbrev pub whole_file : Source
whole_file = record { cancelled = λ read. none; ends = none; max_bytes = 0 }

-- Chunks that cover some bytes of a file, which start at an offset and a line: each begins where the one
-- before it ends, and has the text, without its line end, and the lines of its span.
abbrev pub Tiles : ℕ → ℕ → Bytes → List Chunk → Type 0
Tiles offset line bs [] = bs ≡ []
Tiles offset line bs (ch ∷ out) =
    let n = ch.byte_end - ch.byte_start in
    let span = take n bs in
    (ch.byte_start ≡ offset)
    × (offset < ch.byte_end)
    × (ch.text ≡ chunk_text span)
    × (ch.start_line ≡ line)
    × (ch.end_line ≡ end_line_of line span)
    × Tiles ch.byte_end (line + newlines span) (drop n bs) out

take-append : (n : ℕ) (xs ys : Bytes) → n ≤ length xs → take n (xs ++ ys) ≡ take n xs
take-append zero xs ys le = refl
take-append (suc n) [] ys le = absurd (omega (arith, le))
take-append (suc n) (x ∷ xs) ys le = ap (◌∷◌ x) (take-append n xs ys (omega (arith, le)))

drop-append : (n : ℕ) (xs ys : Bytes) → n ≤ length xs → drop n (xs ++ ys) ≡ drop n xs ++ ys
drop-append zero xs ys le = refl
drop-append (suc n) [] ys le = absurd (omega (arith, le))
drop-append (suc n) (x ∷ xs) ys le = drop-append n xs ys (omega (arith, le))

abbrev TilesFrom : Cutter → Bytes → List Chunk → Type 0
TilesFrom c bs out = Tiles c.offset c.line (c.buf ++ bs) out

flush-Tiles :
    (n : ℕ) (c : Cutter) (bs : Bytes) (out : List Chunk)
    → n ≤ length c.buf
    → TilesFrom (flush n c).1 bs out
    → TilesFrom c bs (yield_to (flush n c).0 out)
unfolding flush
flush-Tiles zero c bs out le rest = rest
flush-Tiles (suc n) c bs out le rest =
    let same : c.offset + suc n - c.offset ≡ suc n = omega arith in
    rw (same, take-append (suc n) c.buf bs le, drop-append (suc n) c.buf bs le)
      (refl, omega arith, refl, refl, refl, rest)

push-Tiles :
    (b : ℕ) (c : Cutter) (bs : Bytes) (out : List Chunk)
    → Sound c
    → TilesFrom (push b c).1 bs out
    → TilesFrom c (b ∷ bs) (yield_to (push b c).0 out)
unfolding push take_byte
push-Tiles b c bs out h rest =
    let c' = take_byte b c in
    let cut = cut_at-CutFits b c' (take_byte-Taken b c h) in
    let tiles : TilesFrom c' bs (yield_to (flush (cut_at b c') c').0 out) =
      flush-Tiles (cut_at b c') c' bs out cut.inside rest in
    subst (λ buf. Tiles c.offset c.line buf (yield_to (flush (cut_at b c') c').0 out))
      (append_assoc c.buf (b ∷ []) bs) tiles

drop_all : (s : Bytes) → drop (length s) s ≡ []
drop_all [] = refl
drop_all (c ∷ s) = drop_all s

flush-buf : (n : ℕ) (c : Cutter) → (flush n c).1.buf ≡ drop n c.buf
unfolding flush
flush-buf zero c = refl
flush-buf (suc n) c = refl

finish-Tiles : (c : Cutter) → TilesFrom c [] (finish c)
unfolding finish
finish-Tiles c =
    let n = length c.buf in
    flush-Tiles n c [] [] (omega arith) (append-nil _ ∙ (flush-buf n c ∙ drop_all c.buf))

test_context-none : (b : Bool) → test_context b none ≡ reads
test_context-none true = refl
test_context-none false = refl

pub read_test-whole_file : (read : ℕ) → read_test whole_file read ≡ reads
unfolding read_test
read_test-whole_file read = test_context-none (read % 65536 == 0)

feed-Tiles :
    (bs : Bytes) (read : ℕ) (c : Cutter)
    → Sound c
    → TilesFrom c bs (feed whole_file read c bs).0 × ((feed whole_file read c bs).1 ≡ none)
unfolding feed after_test
feed-Tiles [] read c h = rw (read_test-whole_file read, after_test) (finish-Tiles c, refl)
feed-Tiles (b ∷ bs) read c h =
    let (rest, done) = feed-Tiles bs (read + 1) (push b c).1 (push-Sound b c h) in
    rw (read_test-whole_file read, after_test) (push-Tiles b c bs _ h rest, done)

-- With sizes that pass the checks, the chunks of a file cover it: the first begins at its first byte and
-- line, each begins where the one before it ends, the last ends at the file's end, and each has the text
-- of its bytes, without the line end, and their lines.
pub chunks-Tiles :
    (small mean large : ℤ) (sizes : ChunkSizes) (bytes : Bytes)
    → with_defaults small mean large ≡ ok sizes
    → Tiles 0 1 bytes (chunks whole_file sizes bytes).0 × ((chunks whole_file sizes bytes).1 ≡ none)
unfolding chunks
chunks-Tiles small mean large sizes bytes h =
    feed-Tiles bytes 0 (new_cutter sizes) (new_cutter-Sound small mean large sizes h)
