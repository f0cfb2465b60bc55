-- ===== src/Chunks/Tests.antt =====
-- A small file in chunks of 4 to 12 bytes, and a file's tail in chunks of the default sizes.
use tacklr.Base.{
  valid_utf8, full_rune, ◌≡◌, refl, none, Bytes, codes, pos, true, false, ◌++◌, [], ◌∷◌, arith,
}
use tacklr.Failure.{ok}
use tacklr.Chunks.{
  ChunkSizes, default_chunk_sizes, with_defaults, is_binary_sample, rune_start, Source, new_cutter,
  feed, chunks,
}
use tacklr.Chunks.Bounds.{InBounds, chunks-InBounds}
use tacklr.Chunks.Tiles.{whole_file, Tiles, chunks-Tiles}
use tacklr.Chunks.Resync.{texts, feed-same_texts}

abbrev small_sizes : ChunkSizes
small_sizes = record { min_size = 4; avg_size = 6; max_size = 12 }

small_sizes_pass : with_defaults (pos 4) (pos 6) (pos 12) ≡ ok small_sizes
unfolding with_defaults
small_sizes_pass = refl

abbrev two_lines : Bytes
two_lines = codes "a line of text" ++ b'\n' ∷ codes "and one more"

-- The first 20 bytes only.
abbrev limited : Source
limited = record { cancelled = λ read. none; ends = none; max_bytes = 20 }

chunks-InBounds_example : InBounds small_sizes (chunks limited small_sizes two_lines).0
chunks-InBounds_example =
    chunks-InBounds (pos 4) (pos 6) (pos 12) small_sizes limited two_lines small_sizes_pass

chunks-Tiles_example :
    Tiles 0 1 two_lines (chunks whole_file small_sizes two_lines).0
    × ((chunks whole_file small_sizes two_lines).1 ≡ none)
chunks-Tiles_example = chunks-Tiles (pos 4) (pos 6) (pos 12) small_sizes two_lines small_sizes_pass

feed-same_texts_example :
    texts
      (feed whole_file 70
        (record (new_cutter default_chunk_sizes) { hash = 12345; line = 9; offset = 70 })
        two_lines).0
    ≡ texts (feed whole_file 0 (new_cutter default_chunk_sizes) two_lines).0
feed-same_texts_example =
    feed-same_texts two_lines 0 70 12345 9 70 (new_cutter default_chunk_sizes) refl (omega arith)
      (omega arith) (omega arith)

-- A sample cut within a rune is text; one with a zero byte is not.
binary_samples :
    (is_binary_sample (b'a' ∷ 0xC3 ∷ []) ≡ false) × (is_binary_sample (b'a' ∷ 0 ∷ []) ≡ true)
unfolding is_binary_sample valid_utf8 full_rune rune_start
binary_samples = (refl, refl)
