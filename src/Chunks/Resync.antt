-- ===== src/Chunks/Resync.antt =====
-- What a cut depends on: the bytes since the last one (vfsindex/chunk.go).
use tacklr.Base.{
  ℕ, zero, suc, ◌+◌, ◌*◌, ◌/◌, ◌%◌, ◌^◌, ◌≤◌, ◌<◌, min, bit_and, ◌≡◌, refl, sym, ap, subst,
  Bool-cases, inl, inr, ◌&&◌, ◌||◌, leb, ◌==◌, Option, none, some, List, [], ◌∷◌, ◌++◌, map, length,
  length-append, length-drop, Bytes, arith,
}
use tacklr.Chunks.{
  Chunk, Cutter, gear, flush, take_byte, cut_at, push, yield_to, finish, after_test, feed,
}
use tacklr.Chunks.Tiles.{whole_file, read_test-whole_file}

-- A number that can be halved so many times.
abbrev Mult : ℕ → ℕ → Type 0
Mult zero x = Unit {0}
Mult (suc k) x = (y : ℕ) × (x ≡ y + y) × Mult k y

Mult-add : (k x y : ℕ) → Mult k x → Mult k y → Mult k (x + y)
Mult-add zero x y h j = tt
Mult-add (suc k) x y (a, e, h) (b, f, j) = (a + b, omega (arith, e, f), Mult-add k a b h j)

Mult-less : (j k x : ℕ) → k ≤ j → Mult j x → Mult k x
Mult-less j zero x le h = tt
Mult-less zero (suc k) x le h = absurd (omega (arith, le))
Mult-less (suc j) (suc k) x le (y, e, h) = (y, e, Mult-less j k y (omega (arith, le)) h)

doubled : ℕ → ℕ
doubled zero = 1
doubled (suc k) = doubled k + doubled k

Mult-doubled : (k t : ℕ) → Mult k (doubled k * t)
unfolding doubled
Mult-doubled zero t = tt
Mult-doubled (suc k) t = (doubled k * t, grind arith, Mult-doubled k t)

doubled-Mult : (k x : ℕ) → Mult k x → (t : ℕ) × (x ≡ doubled k * t)
unfolding doubled
doubled-Mult zero x h = (x, omega arith)
doubled-Mult (suc k) x (y, e, h) = let (t, f) = doubled-Mult k y h in (t, grind (arith, e, f))

doubled_word : doubled 64 ≡ 2 ^ 64
unfolding doubled
doubled_word = refl

-- Two words whose low bits, so many, are the same.
Agree : ℕ → ℕ → ℕ → Type 0
Agree k h h' = (x : ℕ) × (x' : ℕ) × (h + x ≡ h' + x') × Mult k x × Mult k x'

Agree-less : (j k h h' : ℕ) → k ≤ j → Agree j h h' → Agree k h h'
unfolding Agree
Agree-less j k h h' le (x, x', same, m, m') =
    (x, x', same, Mult-less j k x le m, Mult-less j k x' le m')

rolled : ℕ → ℕ → ℕ
rolled b h = (h * 2 + gear b) % 2 ^ 64

-- What a word loses of a number is a multiple of 2 ^ 64.
lost : (k n : ℕ) → k ≤ 64 → Mult k (2 ^ 64 * (n / 2 ^ 64))
lost k n le =
    Mult-less 64 k _ le
      (subst (λ p. Mult 64 (p * (n / 2 ^ 64))) doubled_word (Mult-doubled 64 (n / 2 ^ 64)))

rolled-Agree : (k b h h' : ℕ) → suc k ≤ 64 → Agree k h h' → Agree (suc k) (rolled b h) (rolled b h')
unfolding rolled Agree
rolled-Agree k b h h' le (x, x', same, m, m') =
    let n = h * 2 + gear b in
    let n' = h' * 2 + gear b in
    (
      2 ^ 64 * (n / 2 ^ 64) + (x + x),
      2 ^ 64 * (n' / 2 ^ 64) + (x' + x'),
      omega (arith, same),
      Mult-add (suc k) _ _ (lost (suc k) n le) (x, refl, m),
      Mult-add (suc k) _ _ (lost (suc k) n' le) (x', refl, m'),
    )

Agree-word : (h h' : ℕ) → h < 2 ^ 64 → h' < 2 ^ 64 → Agree 64 h h' → h ≡ h'
unfolding Agree
Agree-word h h' lt lt' (x, x', same, m, m') =
    let (t, e) = doubled-Mult 64 x m in
    let (t', e') = doubled-Mult 64 x' m' in
    omega (arith, same, lt, lt', rw doubled_word at e, rw doubled_word at e')

-- A cutter at another place of another file, with another hash.
abbrev moved : ℕ → ℕ → ℕ → Cutter → Cutter
moved hash line offset c = record c { hash = hash; line = line; offset = offset }

-- How many of a hash's bits the buffer settles.
abbrev settled : Cutter → ℕ
settled c = min 64 (length c.buf)

record Alike (hash : ℕ) (c : Cutter) : Type 0 where
  small : c.hash < 2 ^ 64
  small' : hash < 2 ^ 64
  low_bits : Agree (settled c) c.hash hash
  wide : 64 ≤ c.sizes.min_size

rolled-settled :
    (b hash : ℕ) (c : Cutter)
    → Alike hash c
    → Agree (settled (take_byte b c)) (rolled b c.hash) (rolled b hash)
unfolding take_byte
rolled-settled b hash c h =
    let k = min 63 (length c.buf) in
    let same : suc k ≡ min 64 (length (c.buf ++ b ∷ [])) =
      omega (arith, length-append c.buf (b ∷ [])) in
    subst (λ j. Agree j (rolled b c.hash) (rolled b hash)) same
      (rolled-Agree k b c.hash hash (omega arith)
        (Agree-less (settled c) k c.hash hash (omega arith) h.low_bits))

rolled_small : (b h : ℕ) → rolled b h < 2 ^ 64
unfolding rolled
rolled_small b h = omega arith

due-Alike :
    (b hash : ℕ) (c : Cutter)
    → Alike hash c
    → (leb c.sizes.min_size (length (c.buf ++ b ∷ [])) && bit_and (rolled b c.hash) c.mask == 0)
      ≡ (leb c.sizes.min_size (length (c.buf ++ b ∷ [])) && bit_and (rolled b hash) c.mask == 0)
unfolding take_byte
due-Alike b hash c h = elim (Bool-cases (leb c.sizes.min_size (length (c.buf ++ b ∷ [])))) [
  | inl large ↦
      let full : min 64 (length (c.buf ++ b ∷ [])) ≡ 64 = ground (arith, h.wide) in
      let same : rolled b c.hash ≡ rolled b hash =
        Agree-word _ _ (rolled_small b c.hash) (rolled_small b hash) (
          subst (λ j. Agree j (rolled b c.hash) (rolled b hash)) full
            (rolled-settled b hash c h)) in
      ap (λ r. leb c.sizes.min_size (length (c.buf ++ b ∷ [])) && bit_and r c.mask == 0) same
  | inr small ↦ rw small refl
]

take_byte-moved :
    (b hash line offset : ℕ) (c : Cutter)
    → Alike hash c
    → take_byte b (moved hash line offset c) ≡ moved (rolled b hash) line offset (take_byte b c)
unfolding take_byte rolled
take_byte-moved b hash line offset c h =
    ap
      (λ due. record (moved (rolled b hash) line offset (take_byte b c)) {
        pending = c.pending || due;
      })
      (sym (due-Alike b hash c h))

take_byte-Alike : (b hash : ℕ) (c : Cutter) → Alike hash c → Alike (rolled b hash) (take_byte b c)
unfolding take_byte rolled
take_byte-Alike b hash c h = record {
  small = rolled_small b c.hash;
  small' = rolled_small b hash;
  low_bits = rolled-settled b hash c h;
  wide = h.wide;
}

abbrev text_of : Option Chunk → List Bytes
text_of none = []
text_of (some ch) = ch.text ∷ []

abbrev pub texts : List Chunk → List Bytes
texts out = map (λ (ch : Chunk). ch.text) out

-- What a flush at another place makes.
record FlushAlike (hash : ℕ) (o o' : Option Chunk) (next next' : Cutter) : Type 0 where
  text : text_of o' ≡ text_of o
  line : ℕ
  offset : ℕ
  place : next' ≡ moved hash line offset next
  alike : Alike hash next

flush-FlushAlike :
    (n hash line offset : ℕ) (c : Cutter)
    → Alike hash c
    → FlushAlike hash
        (flush n c).0
        (flush n (moved hash line offset c)).0
        (flush n c).1
        (flush n (moved hash line offset c)).1
unfolding flush
flush-FlushAlike zero hash line offset c h = record {
  text = refl;
  line = line;
  offset = offset;
  place = refl;
  alike = h;
}
flush-FlushAlike (suc n) hash line offset c h = record {
  text = refl;
  line = _;
  offset = _;
  place = refl;
  alike = record {
    small = h.small;
    small' = h.small';
    low_bits =
        Agree-less (settled c) _ c.hash hash (omega (arith, length-drop (suc n) c.buf)) h.low_bits;
    wide = h.wide;
  };
}

push-FlushAlike :
    (b hash line offset : ℕ) (c : Cutter)
    → Alike hash c
    → FlushAlike
        (rolled b hash)
        (push b c).0
        (push b (moved hash line offset c)).0
        (push b c).1
        (push b (moved hash line offset c)).1
unfolding push cut_at
push-FlushAlike b hash line offset c h =
    let c' = take_byte b c in
    subst
      (λ d.
        FlushAlike (rolled b hash) (flush (cut_at b c') c').0 (flush (cut_at b d) d).0
          (flush (cut_at b c') c').1 (flush (cut_at b d) d).1)
      (sym (take_byte-moved b hash line offset c h))
      (flush-FlushAlike (cut_at b c') (rolled b hash) line offset c' (take_byte-Alike b hash c h))

flush-texts :
    (n hash line offset : ℕ) (c : Cutter)
    → texts (yield_to (flush n (moved hash line offset c)).0 []) ≡ texts (yield_to (flush n c).0 [])
unfolding flush
flush-texts zero hash line offset c = refl
flush-texts (suc n) hash line offset c = refl

finish-texts :
    (hash line offset : ℕ) (c : Cutter)
    → texts (finish (moved hash line offset c)) ≡ texts (finish c)
unfolding finish
finish-texts hash line offset c = flush-texts (length c.buf) hash line offset c

texts-yield_to :
    (o : Option Chunk) (out : List Chunk) → texts (yield_to o out) ≡ text_of o ++ texts out
texts-yield_to none out = refl
texts-yield_to (some ch) out = refl

feed-Alike :
    (bs : Bytes) (read read' hash line offset : ℕ) (c : Cutter)
    → Alike hash c
    → texts (feed whole_file read' (moved hash line offset c) bs).0
      ≡ texts (feed whole_file read c bs).0
unfolding feed after_test
feed-Alike [] read read' hash line offset c h =
    rw (read_test-whole_file read, read_test-whole_file read', after_test)
      (finish-texts hash line offset c)
feed-Alike (b ∷ bs) read read' hash line offset c h =
    let p = push-FlushAlike b hash line offset c h in
    let tail =
      feed-Alike bs (read + 1) (read' + 1) (rolled b hash) p.line p.offset (push b c).1 p.alike in
    let moves : texts (feed whole_file (read' + 1) (push b (moved hash line offset c)).1 bs).0
        ≡ texts (feed whole_file (read + 1) (push b c).1 bs).0 =
      subst
        (λ d.
          texts (feed whole_file (read' + 1) d bs).0
          ≡ texts (feed whole_file (read + 1) (push b c).1 bs).0)
        (sym p.place) tail in
    rw
      (
        read_test-whole_file read,
        read_test-whole_file read',
        after_test,
        texts-yield_to (push b c).0,
        texts-yield_to (push b (moved hash line offset c)).0,
        p.text,
        moves,
      )
      refl

-- Where a cut leaves nothing in the buffer, the texts of the chunks that follow depend on the bytes that
-- follow and the sizes: not on the hash so far, the line, the offset or the count of bytes read, as long
-- as the smallest size is 64 bytes or more and the hashes are words of 64 bits.
pub feed-same_texts :
    (bs : Bytes) (read read' hash line offset : ℕ) (c : Cutter)
    → c.buf ≡ []
    → 64 ≤ c.sizes.min_size
    → c.hash < 2 ^ 64
    → hash < 2 ^ 64
    → texts (feed whole_file read' (record c { hash = hash; line = line; offset = offset }) bs).0
      ≡ texts (feed whole_file read c bs).0
unfolding Agree
feed-same_texts bs read read' hash line offset c empty wide small small' =
    feed-Alike bs read read' hash line offset c (record {
      small = small;
      small' = small';
      low_bits =
          subst (λ buf. Agree (min 64 (length buf)) c.hash hash) (sym empty)
            (hash, c.hash, omega arith, tt, tt);
      wide = wide;
    })
