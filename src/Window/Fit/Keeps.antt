-- ===== src/Window/Fit/Keeps.antt =====
-- What a round's entry keeps of the window: the first user message and the plan document after it.
use tacklr.Base.{
  ◌≡◌, ◌≤◌, refl, ap, ◌∙◌, ℕ, zero, suc, Bool, ◌&&◌, ltb, Option, none, some, List, [], ◌∷◌, ◌++◌,
  map, length, length-append, length-take, take, drop, get_elem?, set, Bytes, Option-cases,
  Bool-cases, inl, inr, arith,
}
use tacklr.Failure.{Result, ok, err, Result-cases, is, cannot_count}
use tacklr.Message.{Message}
use tacklr.Window.{
  RequestCount, no_count, Host, Window, Part, protected_prefix_len, without_reasoning, bound,
  asked_count, measure, full_text, cut_part, largest, messages_of, trim_loop, whole, left, trim,
}
use tacklr.Window.Trims.{trim-fits}
use tacklr.Window.Fit.{
  set_window, summary, summarized, archived, collapse, trimmed, fit_round, fit_measured,
  fit_collapsed, over_pressure, counted_on, fit,
}

protected_prefix_len_le : (msgs : List Message) → protected_prefix_len msgs ≤ length msgs
unfolding protected_prefix_len
protected_prefix_len_le [] = omega arith
protected_prefix_len_le (m ∷ []) = omega arith
protected_prefix_len_le (m ∷ (p ∷ ms)) = ground arith

take-append : {A : Type 0} (k : ℕ) (xs ys : List A) → k ≤ length xs → take k (xs ++ ys) ≡ take k xs
take-append zero xs ys h = refl
take-append (suc k) [] ys h = absurd (omega (arith, h))
take-append (suc k) (x ∷ xs) ys h = ap (◌∷◌ x) (take-append k xs ys (omega (arith, h)))

take-take-append :
    {A : Type 0} (k : ℕ) (xs ys : List A) → k ≤ length xs → take k (take k xs ++ ys) ≡ take k xs
take-take-append zero xs ys h = refl
take-take-append (suc k) [] ys h = absurd (omega (arith, h))
take-take-append (suc k) (x ∷ xs) ys h = ap (◌∷◌ x) (take-take-append k xs ys (omega (arith, h)))

prefix_long :
    (msgs rest : List Message)
    → protected_prefix_len msgs ≤ length (take (protected_prefix_len msgs) msgs ++ rest)
prefix_long msgs rest = omega (
  arith,
  length-append (take (protected_prefix_len msgs) msgs) rest,
  length-take (protected_prefix_len msgs) msgs,
  protected_prefix_len_le msgs,
)

module _ {W : Type 0} (h : Host W) where
  measure-msgs :
      (c : RequestCount) (msgs round : List Message) (w : Window W)
      → (measure h c msgs round w).1.msgs ≡ w.msgs
  unfolding measure asked_count
  measure-msgs c msgs round w = elim (Bool-cases w.cannot_count) [
    | inl e ↦ rw (e, measure) refl
    | inr e ↦ rw (e, measure) (asked (h.count_tokens (msgs ++ round) w.world).0 _)
  ]
    where
      asked :
          (r : Result ℕ) (v : Window W) → (asked_count h r (bound h c msgs round) v).1.msgs ≡ v.msgs
      asked (ok n) v = refl
      asked (err e) v = elim (Bool-cases (is e cannot_count)) [
        | inl k ↦ rw (k, asked_count) refl
        | inr k ↦ rw (k, asked_count) refl
      ]

  full_text-msgs : (p : Part) (w : Window W) → (full_text h p w).1.msgs ≡ w.msgs
  unfolding full_text
  full_text-msgs p w = elim (Option-cases p.cut) [
    | inl e ↦ rw (e, full_text) refl
    | inr (x, e) ↦ rw (e, full_text) refl
  ]

  -- The window's own messages are as they were.
  abbrev SameMsgs : Window W → Option (Result (List Message) × Window W) → Type 0
  SameMsgs w none = Unit
  SameMsgs w (some (r, w')) = w'.msgs ≡ w.msgs

  SameMsgs-from :
      (w w1 : Window W) (o : Option (Result (List Message) × Window W))
      → w1.msgs ≡ w.msgs
      → SameMsgs w1 o
      → SameMsgs w o
  SameMsgs-from w w1 none e k = tt
  SameMsgs-from w w1 (some (r, w')) e k = k ∙ e

  trim_loop-SameMsgs :
      (fuel : ℕ) (c : RequestCount) (msgs : List Message) (parts : List Part) (n : ℕ) (w : Window W)
      → SameMsgs w (trim_loop h fuel c msgs parts n w)
  unfolding trim_loop
  trim_loop-SameMsgs zero c msgs parts n w = tt
  trim_loop-SameMsgs (suc fuel) c msgs parts n w = elim (Bool-cases (ltb w.size n)) [
    | inr over ↦ rw (over, trim_loop) refl
    | inl over ↦ elim (Option-cases (largest parts)) [
      | inl found ↦ rw (over, found, trim_loop) refl
      | inr ((i, size), found) ↦ elim (Option-cases (get_elem? parts i)) [
        | inl at_i ↦ rw (over, found, at_i, trim_loop) tt
        | inr (p, at_i) ↦ elim (Result-cases (full_text h p w).0) [
          | inl (e, lost) ↦ rw (over, found, at_i, lost, trim_loop) (full_text-msgs p w)
          | inr (x, full) ↦
              let w1 = (full_text h p w).1 in
              let parts' = set parts i (cut_part h p x w1.size n) in
              let w2 = (measure h c msgs (messages_of parts') w1).1 in
              let same : w2.msgs ≡ w.msgs =
                measure-msgs c msgs (messages_of parts') w1 ∙ full_text-msgs p w in
              elim (Result-cases (measure h c msgs (messages_of parts') w1).0) [
                | inl (e, unknown) ↦ rw (over, found, at_i, full, unknown, trim_loop) same
                | inr (n', m) ↦
                    rw (over, found, at_i, full, m, trim_loop)
                      (SameMsgs-from w w2 (trim_loop h fuel c msgs parts' n' w2) same
                        (trim_loop-SameMsgs fuel c msgs parts' n' w2))
              ]
        ]
      ]
    ]
  ]

  -- The window after `Fit`: it keeps the protected prefix, or, when it fails, all of its messages.
  abbrev pub FitKeeps : List Message → Result (Unit {0}) × Window W → Type 0
  FitKeeps orig (err e, w') = w'.msgs ≡ orig
  FitKeeps orig (ok _, w') =
      take (protected_prefix_len orig) w'.msgs ≡ take (protected_prefix_len orig) orig

  abbrev FitEnds : List Message → Option (Result (Unit {0}) × Window W) → Type 0
  FitEnds orig none = ⊥
  FitEnds orig (some r) = FitKeeps orig r

  -- Messages that begin with the protected prefix of the window's.
  record Begins (orig msgs : List Message) : Type 0 where
    long : protected_prefix_len orig ≤ length msgs
    same : take (protected_prefix_len orig) msgs ≡ take (protected_prefix_len orig) orig

  set_keeps :
      (orig msgs round : List Message) (c : RequestCount) (w : Window W)
      → Begins orig msgs
      → FitKeeps orig (ok tt, set_window h (msgs ++ round) c w)
  set_keeps orig msgs round c w b =
      take-append (protected_prefix_len orig) msgs round b.long ∙ b.same

  fit_round-FitEnds :
      (orig : List Message) (c : RequestCount) (msgs round : List Message) (n : ℕ) (w : Window W)
      → w.msgs ≡ orig
      → Begins orig msgs
      → FitEnds orig (fit_round h c msgs round n w)
  unfolding fit_round trimmed trim
  fit_round-FitEnds orig c msgs round n w held b = elim (Bool-cases (ltb w.size n)) [
    | inr e ↦ rw (e, fit_round) (set_keeps orig msgs round c w b)
    | inl e ↦
        let (r, ends, _) = trim-fits h c msgs round n w in
        rw (e, fit_round)
          (cut (trim h c msgs round n w) r ends
            (trim_loop-SameMsgs (suc (left (map whole round))) c msgs (map whole round) n w))
  ]
    where
      cut :
          (o : Option (Result (List Message) × Window W)) (r : Result (List Message) × Window W)
          → o ≡ some r
          → SameMsgs w o
          → FitEnds orig (trimmed h c msgs o)
      cut none r ends same = absurd (cc ends)
      cut (some (err e, w')) r ends same = same ∙ held
      cut (some (ok round', w')) r ends same = set_keeps orig msgs round' c w' b

  fit_measured-FitEnds :
      (orig : List Message) (c : RequestCount) (msgs round : List Message) (m : Result ℕ × Window W)
      → m.1.msgs ≡ orig
      → Begins orig msgs
      → FitEnds orig (fit_measured h c msgs round m)
  unfolding fit_measured
  fit_measured-FitEnds orig c msgs round (err e, w) held b = held
  fit_measured-FitEnds orig c msgs round (ok n, w) held b =
      fit_round-FitEnds orig c msgs round n w held b

  abbrev CollapseKeeps : List Message → Result (List Message) × Window W → Type 0
  CollapseKeeps orig (err e, w) = w.msgs ≡ orig
  CollapseKeeps orig (ok msgs, w) = (w.msgs ≡ orig) × Begins orig msgs

  collapse-CollapseKeeps :
      (orig : List Message) (end : ℕ) (w : Window W)
      → w.msgs ≡ orig
      → CollapseKeeps orig (collapse h orig end w)
  unfolding collapse archived summarized
  collapse-CollapseKeeps orig end w held =
      saved (h.archive (drop (protected_prefix_len orig) (take end orig)) w.world).0 _
    where
      texted :
          (kept : Bool) (r : Result Bytes) (v : W)
          → CollapseKeeps orig (summarized h orig end kept r, record w { world = v })
      texted kept (err e) v = held
      texted kept (ok text) v = (
        held,
        record {
          long = prefix_long orig (summary text kept ∷ without_reasoning (drop end orig));
          same = take-take-append (protected_prefix_len orig) orig _ (protected_prefix_len_le orig);
        },
      )

      saved :
          (r : Result Bool) (v : W)
          → CollapseKeeps orig (archived h orig end r (record w { world = v }))
      saved (err e) v = held
      saved (ok kept) v =
          texted kept (h.summarize (take end orig) v).0 (h.summarize (take end orig) v).1

  fit_collapsed-FitEnds :
      (orig round : List Message) (r : Result (List Message) × Window W)
      → CollapseKeeps orig r
      → FitEnds orig (fit_collapsed h round r)
  unfolding fit_collapsed
  fit_collapsed-FitEnds orig round (err e, w) held = held
  fit_collapsed-FitEnds orig round (ok msgs, w) (held, b) =
      fit_measured-FitEnds orig no_count msgs (without_reasoning round)
        (measure h no_count msgs (without_reasoning round) w)
        (measure-msgs no_count msgs (without_reasoning round) w ∙ held) b

  over_pressure-FitEnds :
      (c : RequestCount) (orig round : List Message) (m : Result ℕ × Window W)
      → m.1.msgs ≡ orig
      → FitEnds orig (over_pressure h c orig round m)
  unfolding over_pressure
  over_pressure-FitEnds c orig round (err e, w) held = held
  over_pressure-FitEnds c orig round (ok n, w) held =
      elim (Bool-cases (ltb w.threshold n && ltb (protected_prefix_len orig) (length orig))) [
        | inl e ↦
            rw (e, over_pressure)
              (fit_collapsed-FitEnds orig round (collapse h orig (length orig) w)
                (collapse-CollapseKeeps orig (length orig) w held))
        | inr e ↦
            rw (e, over_pressure)
              (fit_round-FitEnds orig c orig round n w held
                (record { long = protected_prefix_len_le orig; same = refl }))
      ]

  fit-FitEnds :
      (round : List Message) (counted : ℕ) (w : Window W) → FitEnds w.msgs (fit h round counted w)
  unfolding fit
  fit-FitEnds round counted w =
      let c = counted_on h counted w in
      elim (Bool-cases (ltb (bound h c w.msgs round) w.threshold)) [
        | inl e ↦
            rw (e, fit)
              (set_keeps w.msgs w.msgs round c w
                (record { long = protected_prefix_len_le w.msgs; same = refl }))
        | inr e ↦
            rw (e, fit)
              (over_pressure-FitEnds c w.msgs round (measure h c w.msgs round w)
                (measure-msgs c w.msgs round w))
      ]

  -- A round's entry always ends, however the host and the model answer. When it succeeds, the window still
  -- begins with its protected prefix: the first user message, and the plan document after it. When it
  -- fails, the window has the messages that it had.
  pub fit-keeps_prefix :
      (round : List Message) (counted : ℕ) (w : Window W)
      → (r : Result (Unit {0}) × Window W) × (fit h round counted w ≡ some r) × FitKeeps w.msgs r
  fit-keeps_prefix round counted w = found (fit h round counted w) (fit-FitEnds round counted w)
    where
      found :
          (o : Option (Result (Unit {0}) × Window W))
          → FitEnds w.msgs o
          → (r : Result (Unit {0}) × Window W) × (o ≡ some r) × FitKeeps w.msgs r
      found none k = absurd k
      found (some r) k = (r, refl, k)
