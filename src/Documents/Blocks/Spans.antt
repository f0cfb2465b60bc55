-- ===== src/Documents/Blocks/Spans.antt =====
-- Where the blocks of a Markdown text lie (vfs/structure.go).
use tacklr.Base.{
  ℕ, zero, suc, ◌+◌, ◌≤◌, ◌<◌, ◌≡◌, refl, subst, ◌⊎◌, inl, inr, Bool-cases, ltb, leb, ◌==◌, Option,
  none, some, List, [], ◌∷◌, ◌++◌, All, length, Bytes, Dict, arith,
}
use tacklr.Documents.{TextBody, line_at}
use tacklr.Documents.Blocks.{
  Unicode, Block, line_step, with_head, Head, heads_from, Stack, end_of, heading_blocks,
  preamble_end, preamble_blocks, blocks_from_markdown,
}

-- Headings on lines that increase, in a range.
abbrev Increasing : ℕ → ℕ → List Head → Type 0
Increasing low high [] = Unit {0}
Increasing low high (h ∷ hs) = (low ≤ h.line) × (h.line < high) × Increasing (h.line + 1) high hs

Increasing-low :
    (low low' high : ℕ) (hs : List Head)
    → low' ≤ low
    → Increasing low high hs
    → Increasing low' high hs
Increasing-low low low' high [] le h = tt
Increasing-low low low' high (g ∷ gs) le (a, b, rest) = (omega (arith, a, le), b, rest)

with_head-Increasing :
    (i high : ℕ) (found : Option (ℕ × Bytes)) (hs : List Head)
    → i + 1 < high
    → Increasing (i + 1 + 1) high hs
    → Increasing (i + 1) high (with_head (i + 1) found hs)
unfolding with_head
with_head-Increasing i high none hs lt h =
    Increasing-low (i + 1 + 1) (i + 1) high hs (omega arith) h
with_head-Increasing i high (some found) hs lt h = (omega arith, lt, h)

heads_from-Increasing :
    (k i : ℕ) (b : TextBody) (fence : Option Bytes)
    → Increasing (i + 1) (i + k + 1) (heads_from k i b fence)
unfolding heads_from
heads_from-Increasing zero i b fence = tt
heads_from-Increasing (suc k) i b fence =
    let step = line_step (line_at b.payload b.starts i) fence in
    let rest : Increasing (i + 1 + 1) (i + suc k + 1) (heads_from k (i + 1) b step.0) =
      subst (λ n. Increasing (i + 1 + 1) n (heads_from k (i + 1) b step.0)) {x = i + 1 + k + 1}
        (omega arith) (heads_from-Increasing k (i + 1) b step.0) in
    with_head-Increasing i (i + suc k + 1) step.1 _ (omega arith) rest

end_of-bounds :
    (level eof low : ℕ) (hs : List Head)
    → low ≤ eof
    → Increasing low eof hs
    → (low ≤ end_of level eof hs) × (end_of level eof hs ≤ eof)
unfolding end_of
end_of-bounds level eof low [] le h = (le, omega arith)
end_of-bounds level eof low (g ∷ gs) le (a, b, rest) =
    let ih = end_of-bounds level eof (g.line + 1) gs (omega (arith, b)) rest in
    (ground (arith, a, ih.0), ground (arith, b, ih.1))

-- A deeper heading ends no later.
end_of-deeper :
    (level deeper eof low : ℕ) (hs : List Head)
    → level ≤ deeper
    → low ≤ eof
    → Increasing low eof hs
    → end_of deeper eof hs ≤ end_of level eof hs
unfolding end_of
end_of-deeper level deeper eof low [] le room h = omega arith
end_of-deeper level deeper eof low (g ∷ gs) le room (a, b, rest) =
    let ih = end_of-deeper level deeper eof (g.line + 1) gs le (omega (arith, b)) rest in
    let lower = (end_of-bounds level eof (g.line + 1) gs (omega (arith, b)) rest).0 in
    ground (arith, le, lower, ih)

-- Blocks in the order of their lines, each with a line at least, and with those that follow within it or after it.
abbrev pub Laid : ℕ → ℕ → List Block → Type 0
Laid low high [] = Unit {0}
Laid low high (b ∷ bs) =
    (low ≤ b.start_line)
    × (b.start_line < b.end_line)
    × (b.end_line ≤ high)
    × All (λ c. (c.end_line ≤ b.end_line) ⊎ (b.end_line ≤ c.start_line)) bs
    × Laid (b.start_line + 1) high bs

-- Blocks that start from a line on.
starts_from :
    (u : Unicode) (eof low limit : ℕ) (stack : Stack) (used : Dict ℕ) (hs : List Head)
    → limit ≤ low
    → Increasing low eof hs
    → All (λ c. limit ≤ c.start_line) (heading_blocks u eof stack used hs)
unfolding heading_blocks
starts_from u eof low limit stack used [] le h = tt
starts_from u eof low limit stack used (g ∷ gs) le (a, b, rest) =
    (omega (arith, le, a), starts_from u eof (g.line + 1) limit _ _ gs (omega (arith, le, a)) rest)

All-map : {P Q : Block → Type 0} (bs : List Block) → ((b : Block) → P b → Q b) → All P bs → All Q bs
All-map [] f h = tt
All-map (b ∷ bs) f (p, h) = (f b p, All-map bs f h)

-- The region of a heading, and the blocks that follow it.
region-Apart :
    (u : Unicode) (level eof low end : ℕ) (stack : Stack) (used : Dict ℕ) (hs : List Head)
    → low ≤ eof
    → Increasing low eof hs
    → end_of level eof hs ≡ end
    → All (λ c. (c.end_line ≤ end) ⊎ (end ≤ c.start_line)) (heading_blocks u eof stack used hs)
unfolding heading_blocks end_of
region-Apart u level eof low end stack used [] le h e = tt
region-Apart u level eof low end stack used (g ∷ gs) le (a, b, rest) e =
    elim (Bool-cases (leb g.level level)) [
      | inl ends ↦
          let at_head : g.line ≡ end = rw ends at e in
          (
            inr (omega (arith, at_head)),
            All-map _ (λ c x. inr x)
                (starts_from u eof (g.line + 1) end _ _ gs (omega (arith, at_head)) rest),
          )
      | inr deeper ↦
          let later : end_of level eof gs ≡ end = rw deeper at e in
          let inner =
            end_of-deeper level g.level eof (g.line + 1) gs (ground (arith, deeper))
              (omega (arith, b)) rest in
          (
            inl (omega (arith, later, inner)),
            region-Apart u level eof (g.line + 1) end _ _ gs (omega (arith, b)) rest later,
          )
    ]

heading_blocks-Laid :
    (u : Unicode) (eof low : ℕ) (stack : Stack) (used : Dict ℕ) (hs : List Head)
    → Increasing low eof hs
    → Laid low eof (heading_blocks u eof stack used hs)
unfolding heading_blocks
heading_blocks-Laid u eof low stack used [] h = tt
heading_blocks-Laid u eof low stack used (g ∷ gs) (a, b, rest) =
    let ends = end_of-bounds g.level eof (g.line + 1) gs (omega (arith, b)) rest in
    (
      a,
      omega (arith, ends.0),
      ends.1,
      region-Apart u g.level eof (g.line + 1) (end_of g.level eof gs) _ _ gs (omega (arith, b)) rest
          refl,
      heading_blocks-Laid u eof (g.line + 1) _ _ gs rest,
    )

Laid-low : (low low' high : ℕ) (bs : List Block) → low' ≤ low → Laid low high bs → Laid low' high bs
Laid-low low low' high [] le h = tt
Laid-low low low' high (b ∷ bs) le (a, one, last, apart, rest) =
    (omega (arith, le, a), one, last, apart, rest)

with_preamble-Laid :
    (u : Unicode) (eof pre : ℕ) (hs : List Head)
    → 1 ≤ pre
    → pre ≤ eof
    → Increasing pre eof hs
    → Laid 1 eof (preamble_blocks pre ++ heading_blocks u eof [] [] hs)
with_preamble-Laid u eof pre hs first last h =
    let blocks = heading_blocks u eof [] [] hs in
    let laid = heading_blocks-Laid u eof pre [] [] hs h in
    elim (Bool-cases (ltb 1 pre)) [
      | inl text ↦
          let two : 1 + 1 ≤ pre = ground (arith, text) in
          rw text (
            omega arith,
            omega (arith, two),
            last,
            All-map blocks (λ c x. inr x) (starts_from u eof pre pre [] [] hs (omega arith) h),
            Laid-low pre (1 + 1) eof blocks two laid,
          )
      | inr nothing ↦ rw nothing (Laid-low pre 1 eof blocks first laid)
    ]

preamble-Laid :
    (u : Unicode) (eof : ℕ) (hs : List Head)
    → 1 ≤ eof
    → Increasing 1 eof hs
    → Laid 1 eof (preamble_blocks (preamble_end eof hs) ++ heading_blocks u eof [] [] hs)
preamble-Laid u eof [] room h = with_preamble-Laid u eof eof [] room (omega arith) tt
preamble-Laid u eof (g ∷ gs) room (a, b, rest) =
    with_preamble-Laid u eof g.line (g ∷ gs) a (omega (arith, b)) (omega arith, b, rest)

-- The blocks of a Markdown text stand in the order of their lines, within the text's; each has a line at least, and of
-- two of them the later lies within the earlier or after it.
pub blocks_from_markdown-Laid :
    (u : Unicode) (b : TextBody) → Laid 1 (length b.starts + 1) (blocks_from_markdown u b)
unfolding blocks_from_markdown
blocks_from_markdown-Laid u b =
    let n = length b.starts in
    elim (Bool-cases (n == 0)) [
      | inl nothing ↦ rw nothing tt
      | inr some_text ↦ rw some_text (
          preamble-Laid u (n + 1) (heads_from n 0 b none) (omega arith) (
            subst (λ m. Increasing 1 m (heads_from n 0 b none)) {x = 0 + n + 1} (omega arith)
              (heads_from-Increasing n 0 b none)))
    ]
