-- ===== src/Window/Trims.antt =====
-- The cuts of a round's largest results (`trim` of window.go).
use tacklr.Base.{
  ◌≡◌, ◌≤◌, ◌<◌, refl, sym, ap, ◌∙◌, subst, ℕ, zero, suc, ◌+◌, ◌*◌, ◌/◌, true, ltb, Option, none,
  some, List, [], ◌∷◌, ◌++◌, map, length, get_elem?, set, Bytes, Option-cases, Bool-cases, inl, inr,
  arith, if◌then◌else◌, ltb→lt, ltb-false→le,
}
use native.Mathlib.Nat.{div-lt_iff_lt-mul, mul-lt-mul_of_pos_left}
use tacklr.Failure.{is, cannot_count, Result, ok, err, Result-cases}
use tacklr.Message.{Message, is_tool}
use tacklr.Window.{
  RequestCount, Host, Window, Cut, Part, part_size, cuttable, larger, after, largest, rune_floor,
  measure, staged, full_text, cut_part, asked_count, bound, messages_of, trim_loop, whole, left,
  trim,
}

rune_floor_le : (n : ℕ) (text : Bytes) → rune_floor n text ≤ n
unfolding rune_floor
rune_floor_le zero text = omega arith
rune_floor_le (suc n) text = ground (arith, rune_floor_le n text)

-- The largest result is one of the round's, with its size, and has something to cut.
abbrev IsLargest : List Part → Option (ℕ × ℕ) → Type 0
IsLargest ps none = Unit
IsLargest ps (some (i, n)) =
    (p : Part) × (get_elem? ps i ≡ some p) × (0 < part_size p) × (is_tool p.message.role ≡ true)

larger-IsLargest :
    (p : Part) (ps : List Part) (o : Option (ℕ × ℕ))
    → 0 < part_size p
    → is_tool p.message.role ≡ true
    → IsLargest ps o
    → IsLargest (p ∷ ps) (some (larger (part_size p) o))
larger-IsLargest p ps none pos is_result h = (p, refl, pos, is_result)
larger-IsLargest p ps (some (j, m)) pos is_result h = elim (Bool-cases (ltb (part_size p) m)) [
  | inl e ↦ rw e h
  | inr e ↦ rw e (p, refl, pos, is_result)
]

largest-IsLargest : (ps : List Part) → IsLargest ps (largest ps)
unfolding largest
largest-IsLargest [] = tt
largest-IsLargest (p ∷ ps) = elim (Bool-cases (cuttable p)) [
  | inl c ↦
      rw (c, largest)
        (larger-IsLargest p ps (largest ps) (ground (arith, c)) (ground (arith, c))
          (largest-IsLargest ps))
  | inr c ↦ rw (c, largest) (later (largest ps) (largest-IsLargest ps))
]
  where
    later : (o : Option (ℕ × ℕ)) → IsLargest ps o → IsLargest (p ∷ ps) (after o)
    later none h = tt
    later (some (i, n)) h = h

left-set :
    (ps : List Part) (i : ℕ) (p q : Part)
    → get_elem? ps i ≡ some p
    → left (set ps i q) + part_size p ≡ left ps + part_size q
left-set [] i p q e = absurd (cc e)
left-set (x ∷ ps) zero p q e = ground (arith, e)
left-set (x ∷ ps) (suc i) p q e = omega (arith, left-set ps i p q e)

share_lt : (k size n : ℕ) → 0 < k → size < n → k * size / n < k
share_lt k size n pos lt =
    (div-lt_iff_lt-mul (omega (arith, pos, lt))).1 (mul-lt-mul_of_pos_left lt pos)

-- A cut keeps less than the part had.
cut_part_lt :
    {W : Type 0} (h : Host W) (p : Part) (c : Cut) (size n : ℕ)
    → 0 < c.kept
    → size < n
    → part_size (cut_part h p c size n) < c.kept
unfolding cut_part
cut_part_lt h p c size n pos lt =
    omega (arith, rune_floor_le (c.kept * size / n) c.full, share_lt c.kept size n pos lt)

messages_of-whole : (round : List Message) → messages_of (map whole round) ≡ round
messages_of-whole [] = refl
messages_of-whole (m ∷ round) = ap (◌∷◌ m) (messages_of-whole round)

-- A message of the round without what a cut may change.
abbrev pub uncut : Message → Message
uncut m = if is_tool m.role then record m { content = [] } else m

module _ {W : Type 0} (h : Host W) (c : RequestCount) (msgs : List Message) where
  -- The round fits the window's size: as it was, or in its last measure.
  pub data Fits (before : List Message) (n : ℕ) (w : Window W) (round : List Message)
      (w' : Window W) : Type 0 where
    fitted : round ≡ before → w' ≡ w → n ≤ w.size → Fits before n w round w'
    measured :
        (w0 : Window W) (n' : ℕ)
        → measure h c msgs round w0 ≡ (ok n', w')
        → n' ≤ w.size
        → Fits before n w round w'

  -- What the cuts leave of a round that needs `n` tokens.
  abbrev pub Trimmed : List Message → ℕ → Window W → Result (List Message) × Window W → Type 0
  Trimmed before n w (err e, w') = Unit
  Trimmed before n w (ok round, w') =
      (map uncut round ≡ map uncut before) × Fits before n w round w'

  abbrev EndsFrom : List Message → ℕ → Window W → Option (Result (List Message) × Window W) → Type 0
  EndsFrom before n w none = ⊥
  EndsFrom before n w (some r) = Trimmed before n w r

  abbrev Ends : List Part → ℕ → Window W → Option (Result (List Message) × Window W) → Type 0
  Ends parts n w o = EndsFrom (messages_of parts) n w o

  full_text-size : (p : Part) (w : Window W) → (full_text h p w).1.size ≡ w.size
  unfolding full_text
  full_text-size p w = elim (Option-cases p.cut) [
    | inl e ↦ rw (e, full_text) refl
    | inr (x, e) ↦ rw (e, full_text) refl
  ]

  abbrev KeptAs : ℕ → Result Cut → Type 0
  KeptAs n (ok x) = x.kept ≡ n
  KeptAs n (err e) = Unit

  full_text-KeptAs : (p : Part) (w : Window W) → KeptAs (part_size p) (full_text h p w).0
  unfolding full_text staged
  full_text-KeptAs p w = elim (Option-cases p.cut) [
    | inl e ↦
        rw (e, full_text)
          (staged_kept (h.keep_result p.message.tool_call_id p.message.content w.world).0)
    | inr (x, e) ↦ rw (e, full_text) refl
  ]
    where
      staged_kept :
          (r : Result Bytes) → KeptAs (length p.message.content) (staged h p.message.content r)
      staged_kept (ok path) = refl
      staged_kept (err e) = tt

  measure-size : (round : List Message) (w : Window W) → (measure h c msgs round w).1.size ≡ w.size
  unfolding measure asked_count
  measure-size round w = elim (Bool-cases w.cannot_count) [
    | inl e ↦ rw (e, measure) refl
    | inr e ↦ rw (e, measure) (asked (h.count_tokens (msgs ++ round) w.world).0 _)
  ]
    where
      asked :
          (r : Result ℕ) (v : Window W) → (asked_count h r (bound h c msgs round) v).1.size ≡ v.size
      asked (ok n) v = refl
      asked (err e) v = elim (Bool-cases (is e cannot_count)) [
        | inl k ↦ rw (k, asked_count) refl
        | inr k ↦ rw (k, asked_count) refl
      ]

  -- One more pass before the rest of the loop.
  after_pass :
      (parts parts' : List Part) (n n' : ℕ) (w w1 w2 : Window W)
      → map uncut (messages_of parts') ≡ map uncut (messages_of parts)
      → measure h c msgs (messages_of parts') w1 ≡ (ok n', w2)
      → w2.size ≡ w.size
      → (o : Option (Result (List Message) × Window W)) → Ends parts' n' w2 o
      → Ends parts n w o
  after_pass parts parts' n n' w w1 w2 same m size none ends = ends
  after_pass parts parts' n n' w w1 w2 same m size (some (err e, w')) ends = tt
  after_pass parts parts' n n' w w1 w2 same m size (some (ok round, w')) (shape, fitted r v le) = (
    shape ∙ same,
    measured w1 n' (ap (λ x. measure h c msgs x w1) r ∙ (m ∙ ap (λ y. (ok n', y)) (sym v)))
        (subst (λ x. n' ≤ x) size le),
  )
  after_pass parts parts' n n' w w1 w2 same m size (some (ok round, w'))
        (shape, measured w0 n'' k le) =
      (shape ∙ same, measured w0 n'' k (subst (λ x. n'' ≤ x) size le))

  uncut-cut_part :
      (p : Part) (x : Cut) (size n : ℕ)
      → is_tool p.message.role ≡ true
      → uncut (cut_part h p x size n).message ≡ uncut p.message
  unfolding cut_part
  uncut-cut_part p x size n is_result = rw is_result refl

  -- What is left to cut, once a part of it is cut.
  pass_left :
      (parts : List Part) (i : ℕ) (p : Part) (x : Cut) (size n fuel : ℕ)
      → get_elem? parts i ≡ some p
      → x.kept ≡ part_size p
      → 0 < part_size p
      → size < n
      → left parts < suc fuel
      → left (set parts i (cut_part h p x size n)) < fuel
  pass_left parts i p x size n fuel at_i kept pos lt enough = omega (
    arith,
    left-set parts i p (cut_part h p x size n) at_i,
    cut_part_lt h p x size n (subst (λ k. 0 < k) (sym kept) pos) lt,
    kept,
    enough,
  )

  messages_set :
      (parts : List Part) (i : ℕ) (p q : Part)
      → get_elem? parts i ≡ some p
      → uncut q.message ≡ uncut p.message
      → map uncut (messages_of (set parts i q)) ≡ map uncut (messages_of parts)
  messages_set [] i p q at_i same = refl
  messages_set (x ∷ parts) zero p q at_i same =
      let here : uncut q.message ≡ uncut x.message = cc (at_i, same) in
      ap (λ u. u ∷ map uncut (messages_of parts)) here
  messages_set (x ∷ parts) (suc i) p q at_i same =
      ap (◌∷◌ (uncut x.message)) (messages_set parts i p q at_i same)

  trim_loop-Ends :
      (fuel : ℕ) (parts : List Part) (n : ℕ) (w : Window W)
      → left parts < fuel
      → Ends parts n w (trim_loop h fuel c msgs parts n w)
  unfolding trim_loop
  trim_loop-Ends zero parts n w enough = absurd (omega (arith, enough))
  trim_loop-Ends (suc fuel) parts n w enough = elim (Bool-cases (ltb w.size n)) [
    | inr over ↦ rw (over, trim_loop) (refl, fitted refl refl (ltb-false→le w.size n over))
    | inl over ↦ elim (Option-cases (largest parts)) [
      | inl none_left ↦ rw (over, none_left, trim_loop) tt
      | inr ((i, size), found) ↦
          let (p, at_i, pos, is_result) = subst (IsLargest parts) found (largest-IsLargest parts) in
          elim (Result-cases (full_text h p w).0) [
            | inl (e, lost) ↦ rw (over, found, at_i, lost, trim_loop) tt
            | inr (x, full) ↦
                let w1 = (full_text h p w).1 in
                let parts' = set parts i (cut_part h p x w1.size n) in
                let w2 = (measure h c msgs (messages_of parts') w1).1 in
                let size_same : w2.size ≡ w.size =
                  measure-size (messages_of parts') w1 ∙ full_text-size p w in
                let kept = subst (KeptAs (part_size p)) full (full_text-KeptAs p w) in
                let less = subst (λ k. k < n) (sym (full_text-size p w)) (ltb→lt w.size n over) in
                let fewer = pass_left parts i p x w1.size n fuel at_i kept pos less enough in
                let same =
                  messages_set parts i p (cut_part h p x w1.size n) at_i
                    (uncut-cut_part p x w1.size n is_result) in
                elim (Result-cases (measure h c msgs (messages_of parts') w1).0) [
                  | inl (e, unknown) ↦ rw (over, found, at_i, full, unknown, trim_loop) tt
                  | inr (n', m) ↦
                      rw (over, found, at_i, full, m, trim_loop)
                        (after_pass parts parts' n n' w w1 w2 same (λ j. (m j, w2)) size_same
                          (trim_loop h fuel c msgs parts' n' w2)
                          (trim_loop-Ends fuel parts' n' w2 fewer))
                ]
          ]
    ]
  ]

  -- The cuts of a round always end. When they succeed, the round has the same messages but for the
  -- contents of tool results, and it fits the window's size: it did before any cut, or its last measure
  -- said so.
  pub trim-fits :
      (round : List Message) (n : ℕ) (w : Window W)
      → (r : Result (List Message) × Window W) × (trim h c msgs round n w ≡ some r)
        × Trimmed round n w r
  unfolding trim
  trim-fits round n w = found _ (
      subst
        (λ ms.
          EndsFrom ms n w (trim_loop h (suc (left (map whole round))) c msgs (map whole round) n w))
        (messages_of-whole round)
        (trim_loop-Ends (suc (left (map whole round))) (map whole round) n w (omega arith)))
    where
      found :
          (o : Option (Result (List Message) × Window W))
          → EndsFrom round n w o
          → (r : Result (List Message) × Window W) × (o ≡ some r) × Trimmed round n w r
      found none k = absurd k
      found (some r) k = (r, refl, k)
