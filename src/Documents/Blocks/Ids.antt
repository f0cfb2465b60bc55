-- ===== src/Documents/Blocks/Ids.antt =====
-- The ids of headings with one base id (vfs/structure.go).
use tacklr.Base.{
  ℕ, ◌+◌, ◌≡◌, refl, ◌∙◌, ap, true, false, leb, List, [], ◌∷◌, ◌++◌, map, Bytes, codes, text_eq,
  text_eq_refl, decimal, Dict, lookup, insert, arith,
}
use tacklr.Documents.Blocks.{
  Unicode, Block, Head, Stack, pop_stack, id_under, heading_id, segment_of, heading_blocks, uses,
}

abbrev pub head_at : ℕ → ℕ → Bytes → Head
head_at line level title = record { line = line; level = level; title = title }

text_eq-longer : (s : Bytes) (c : ℕ) (t : Bytes) → text_eq s (s ++ c ∷ t) ≡ false
unfolding text_eq
text_eq-longer [] c t = refl
text_eq-longer (d ∷ s) c t = ground (arith, text_eq-longer s c t)

leb_refl : (n : ℕ) → leb n n ≡ true
leb_refl n = ground arith

second : decimal 2 ≡ codes "2"
unfolding decimal
second = refl

pop_one : (level : ℕ) (id : Bytes) → pop_stack level ((level, id) ∷ []) ≡ []
unfolding pop_stack
pop_one level id = rw (leb_refl level) refl

abbrev no_uses : Dict ℕ
no_uses = []

abbrev no_stack : Stack
no_stack = []

uses-one : (s : Bytes) (n : ℕ) → uses s ((s, n) ∷ []) ≡ n
unfolding lookup
uses-one s n = rw (uses, text_eq_refl s) refl

uses-longer : (s : Bytes) (n : ℕ) → uses (s ++ codes "-2") ((s, n) ∷ []) ≡ 0
unfolding lookup
uses-longer s n = rw (uses, text_eq-longer s b'-' (codes "2")) refl

uses-nil : (s : Bytes) → uses s no_uses ≡ 0
unfolding lookup
uses-nil s = refl

insert-nil : (s : Bytes) (n : ℕ) → insert s n no_uses ≡ (s, n) ∷ []
unfolding insert
insert-nil s n = refl

insert-one : (s : Bytes) (m n : ℕ) → insert s n ((s, m) ∷ []) ≡ (s, n) ∷ []
unfolding insert
insert-one s m n = rw (text_eq_refl s) refl

pop-nil : (level : ℕ) → pop_stack level no_stack ≡ []
unfolding pop_stack
pop-nil level = refl

abbrev ids : List Block → List Bytes
ids bs = map (λ (b : Block). b.id) bs

-- A heading's block, from the headings that it lies under, its segment and its count.
ids-heading_blocks :
    (u : Unicode) (eof line level n : ℕ) (title seg : Bytes) (stack outer : Stack) (used : Dict ℕ)
    (hs : List Head)
    → pop_stack level stack ≡ outer
    → segment_of u title ≡ seg
    → uses (id_under outer seg) used + 1 ≡ n
    → ids (heading_blocks u eof stack used (head_at line level title ∷ hs))
      ≡ heading_id outer seg n
        ∷ ids (
            heading_blocks u eof
              ((level, heading_id outer seg n) ∷ outer)
              (insert (id_under outer seg) n used)
              hs)
unfolding heading_blocks
ids-heading_blocks u eof line level n title seg stack outer used hs p s c = rw (p, s, c) refl

-- Let a text have three headings and no other, all of one level: two with one title, and after them one whose own
-- segment is theirs with "-2". Then the second heading's block and the third's have one id.
pub heading_blocks-same_id :
    (u : Unicode) (eof level a b c : ℕ) (title other : Bytes)
    → segment_of u other ≡ segment_of u title ++ codes "-2"
    → map
        (λ (bl : Block). bl.id)
        (heading_blocks u eof [] []
          (head_at a level title ∷ head_at b level title ∷ head_at c level other ∷ []))
      ≡ segment_of u title
        ∷ (segment_of u title ++ codes "-2")
        ∷ (segment_of u title ++ codes "-2")
        ∷ []
unfolding id_under heading_id decimal heading_blocks
heading_blocks-same_id u eof level a b c title other h =
    let s = segment_of u title in
    let s2 = s ++ codes "-2" in
    let used1 = insert s 1 [] in
    let used2 = insert s 2 used1 in
    let tail1 = head_at c level other ∷ [] in
    let n1 : uses s used1 + 1 ≡ 2 = rw (insert-nil s 1) (ap (λ k. k + 1) (uses-one s 1)) in
    let n2 : uses s2 used2 + 1 ≡ 1 =
      rw (insert-nil s 1, insert-one s 1 2) (ap (λ k. k + 1) (uses-longer s 2)) in
    let first =
      ids-heading_blocks u eof a level 1 title s [] [] [] (head_at b level title ∷ tail1)
        (pop-nil level) refl (ap (λ k. k + 1) (uses-nil s)) in
    let again =
      ids-heading_blocks u eof b level 2 title s ((level, s) ∷ []) [] used1 tail1 (pop_one level s)
        refl n1 in
    let third =
      ids-heading_blocks u eof c level 1 other s2 ((level, s2) ∷ []) [] used2 [] (pop_one level s2)
        h n2 in
    first ∙ ap (◌∷◌ s) (again ∙ ap (◌∷◌ s2) third)
