-- ===== src/Orchestrator/Rounds/Shadowed.antt =====
-- A call whose key a call before it in the round has (`record` of turn.go).
use tacklr.Base.{
  ◌≡◌, ◌<◌, ◌≢◌, refl, sym, ap, ◌∙◌, subst, ℕ, zero, suc, Bool, true, false, Option, none, some,
  inl, inr, Option-cases, Bool-cases, List, [], ◌∷◌, text_eq, text_eq_iff, find_index?,
  find_index?-at, ◌==◌, ==_iff, get_elem?, set, arith,
}
use tacklr.Failure.{Failure}
use tacklr.Call.{Call, call_key, is_complete}
use tacklr.Orchestrator.Runtime.{Runtime}
use tacklr.Orchestrator.Rounds.{
  Recorded, kept_call, record_at, record_found, record_outcome, record_call, record_calls,
}

-- The call at a place, where a call before it has the same key.
abbrev pub Shadowed : Call → ℕ → List Call → Type 0
Shadowed b j calls =
    (i : ℕ) × (a : Call) × (i < j)
    × (get_elem? calls i ≡ some a)
    × (get_elem? calls j ≡ some b)
    × (call_key a ≡ call_key b)

get_elem?-set_other :
    (calls : List Call) (i j : ℕ) (v : Call)
    → i ≢ j
    → get_elem? (set calls i v) j ≡ get_elem? calls j
get_elem?-set_other [] i j v ne = refl
get_elem?-set_other (c ∷ calls) zero zero v ne = absurd (ne refl)
get_elem?-set_other (c ∷ calls) zero (suc j) v ne = refl
get_elem?-set_other (c ∷ calls) (suc i) zero v ne = refl
get_elem?-set_other (c ∷ calls) (suc i) (suc j) v ne =
    get_elem?-set_other calls i j v (λ e. ne (ap suc e))

-- The place that a search finds is not after one that passes.
find_index?-first :
    (p : Call → Bool) (calls : List Call) (n i : ℕ) (a : Call)
    → find_index? p calls ≡ some n
    → get_elem? calls i ≡ some a
    → p a ≡ true
    → n < suc i
find_index?-first p [] n i a found at_i h = absurd (cc found)
find_index?-first p (x ∷ calls) n zero a found at_i h =
    let here : p x ≡ true = ap (λ o. p_of o) at_i ∙ h in ground (arith, found, here)
  where
    p_of : Option Call → Bool
    p_of none = false
    p_of (some c) = p c
find_index?-first p (x ∷ calls) n (suc i) a found at_i h = elim (Bool-cases (p x)) [
  | inl e ↦ ground (arith, found, e)
  | inr e ↦ elim (Option-cases (find_index? p calls)) [
    | inl k ↦ ground (arith, found, e, k)
    | inr (m, k) ↦
        let le = find_index?-first p calls m i a k at_i h in
        let same : some (suc m) ≡ some n = rw (e, k) at found in
        let eq : suc m ≡ n = cc same in omega (arith, le, eq)
  ]
]

get_elem?-set_same :
    (calls : List Call) (i : ℕ) (a v : Call)
    → get_elem? calls i ≡ some a
    → get_elem? (set calls i v) i ≡ some v
get_elem?-set_same [] i a v h = absurd (cc h)
get_elem?-set_same (c ∷ calls) zero a v h = refl
get_elem?-set_same (c ∷ calls) (suc i) a v h = get_elem?-set_same calls i a v h

kept_call-key : (calls : List Call) (n : ℕ) (c : Call) → call_key (kept_call calls n c) ≡ call_key c
unfolding kept_call
kept_call-key calls n c = ground arith

-- A write at the first place with a key leaves a later call with that key shadowed, and as it was.
set-Shadowed :
    (b v c : Call) (j n : ℕ) (calls : List Call)
    → find_index? (λ x. text_eq (call_key x) (call_key c)) calls ≡ some n
    → call_key v ≡ call_key c
    → Shadowed b j calls
    → Shadowed b j (set calls n v)
set-Shadowed b v c j n calls found same (i, a, lt, at_i, at_j, key) = elim (Bool-cases (n == i)) [
  | inl e ↦
      let here : n ≡ i = (==_iff n i).0 e in
      let at_n = subst (λ x. get_elem? calls x ≡ some a) (sym here) at_i in
      let names_a : call_key a ≡ call_key c =
        (text_eq_iff _ _).0 (find_index?-at p calls n a found at_n) in
      (
        i,
        v,
        lt,
        subst (λ x. get_elem? (set calls n v) x ≡ some v) here
            (get_elem?-set_same calls n a v at_n),
        get_elem?-set_other calls n j v apart ∙ at_j,
        same ∙ (sym names_a ∙ key),
      )
  | inr e ↦ (
    i,
    a,
    lt,
    get_elem?-set_other calls n i v (λ k. absurd (cc (e, (==_iff n i).1 k))) ∙ at_i,
    get_elem?-set_other calls n j v apart ∙ at_j,
    key,
  )
]
  where
    p : Call → Bool
    p x = text_eq (call_key x) (call_key c)

    apart : n ≢ j
    apart e =
        let names_b : call_key b ≡ call_key c = (text_eq_iff _ _).0 (
          find_index?-at p calls n b found
            (subst (λ x. get_elem? calls x ≡ some b) (sym e) at_j)) in
        let names_a : p a ≡ true = (text_eq_iff _ _).1 (key ∙ names_b) in
        omega (arith, find_index?-first p calls n i a found at_i names_a, e, lt)

Shadowed-at :
    (b : Call) (j : ℕ) (calls : List Call) → Shadowed b j calls → get_elem? calls j ≡ some b
Shadowed-at b j calls (i, a, lt, at_i, at_j, key) = at_j

not_done-is_complete :
    (calls : List Call) (j : ℕ) (b : Call)
    → get_elem? calls j ≡ some b
    → b.done ≡ false
    → is_complete calls ≡ false
not_done-is_complete [] j b h new = absurd (cc h)
not_done-is_complete (c ∷ calls) zero b h new =
    let same : c.done ≡ false = ap done_of h ∙ new in ground (arith, same)
  where
    done_of : Option Call → Bool
    done_of none = false
    done_of (some x) = x.done
not_done-is_complete (c ∷ calls) (suc j) b h new =
    ground (arith, not_done-is_complete calls j b h new)

module _ {W : Type 0} (rt : Runtime W) where
  abbrev StaysShadowed : Call → ℕ → Option (Recorded W) → Type 0
  StaysShadowed b j none = Unit
  StaysShadowed b j (some s) = Shadowed b j s.calls

  record_outcome-StaysShadowed :
      (b : Call) (j : ℕ) (failed : Option Failure) (c : Call) (s : Recorded W)
      → Shadowed b j s.calls
      → StaysShadowed b j (record_outcome rt failed c s)
  unfolding record_outcome record_found record_at
  record_outcome-StaysShadowed b j (some e) c s h = h
  record_outcome-StaysShadowed b j none c s h =
      elim (Option-cases (find_index? (λ x. text_eq (call_key x) (call_key c)) s.calls)) [
        | inl e ↦ rw (e, record_outcome) tt
        | inr (n, e) ↦
            rw (e, record_outcome)
              (set-Shadowed b (kept_call s.calls n c) c j n s.calls e (kept_call-key s.calls n c) h)
      ]

  record_calls-StaysShadowed :
      (b : Call) (j : ℕ) (cs : List Call) (s : Recorded W)
      → Shadowed b j s.calls
      → StaysShadowed b j (record_calls rt cs s)
  unfolding record_calls record_call
  record_calls-StaysShadowed b j [] s h = h
  record_calls-StaysShadowed b j (c ∷ cs) s h =
      next (record_outcome rt c.failure c s) (record_outcome-StaysShadowed b j c.failure c s h)
        (λ s1. record_calls-StaysShadowed b j cs s1)
    where
      next :
          (o : Option (Recorded W))
          → StaysShadowed b j o
          → ((s1 : Recorded W) → Shadowed b j s1.calls → StaysShadowed b j (record_calls rt cs s1))
          → StaysShadowed b j (elim o [ none ↦ none | some s1 ↦ record_calls rt cs s1 ])
      next none k rest = tt
      next (some s1) k rest = rest s1 k

  -- Where two calls of a round have one key, putting runs back leaves the second of them as it was, and still
  -- the second with its key. So if it has not run, the round is not complete, whatever runs there are.
  pub record-never_second :
      (b : Call) (j : ℕ) (cs : List Call) (s s' : Recorded W)
      → Shadowed b j s.calls
      → record_calls rt cs s ≡ some s'
      → Shadowed b j s'.calls × (b.done ≡ false → is_complete s'.calls ≡ false)
  record-never_second b j cs s s' h e =
      let after = subst (StaysShadowed b j) e (record_calls-StaysShadowed b j cs s h) in
      (after, λ new. not_done-is_complete s'.calls j b (Shadowed-at b j s'.calls after) new)
