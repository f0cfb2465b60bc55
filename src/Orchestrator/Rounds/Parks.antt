-- ===== src/Orchestrator/Rounds/Parks.antt =====
-- The parked calls of a round as runs are put back on it (`record` of turn.go).
use tacklr.Base.{
  ℕ, ◌≤◌, ◌≡◌, refl, sym, ap, ◌∙◌, Bool, true, false, ◌&&◌, Option, none, some, inl, inr, List, [],
  ◌∷◌, map, Bytes, text_eq, text_eq_iff, ==_iff, arith, count, set, get_elem?, find_index?, any,
  any-map, All, one_if, count-set, map-set, find_index?-none, find_index?-some, find_index?-at,
  find_index?-any, Bool-cases, if◌then◌else◌,
}
use tacklr.Failure.{Failure}
use tacklr.Call.{Call, new_call, call_key, is_parked, parked}
use tacklr.Orchestrator.Runtime.{Runtime}
use tacklr.Orchestrator.Rounds.{
  other_parked, kept_call, Recorded, record_at, record_outcome, record_call, record_calls,
}

abbrev pub parks : List Call → ℕ
parks calls = count is_parked calls

abbrev pub keys : List Call → List Bytes
keys calls = map call_key calls

kept_key :
    (b : Bool) (c : Call) → call_key (if b then new_call c.tool c.timeout else c) ≡ call_key c
kept_key true c = refl
kept_key false c = refl

module _ (calls : List Call) (i : ℕ) (old c : Call) (at_i : get_elem? calls i ≡ some old) where
  -- A parked run is counted only where no other call is parked.
  room :
      (p : Option ℕ)
      → parked calls ≡ p
      → other_parked p i ≡ false
      → parks calls ≤ 1
      → parks calls ≤ one_if (is_parked old)
  room none e h one = omega (arith, find_index?-none is_parked calls e)
  room (some p) e h one =
      let same : p ≡ i = (==_iff p i).0 (ground arith) in
      rw (find_index?-at is_parked calls i old (e ∙ ap some same) at_i) one

  counts_park :
      (b : Bool)
      → is_parked c ≡ b
      → (b && other_parked (parked calls) i) ≡ false
      → parks calls ≤ 1
      → parks (set calls i c) ≤ 1
  counts_park false e h one = omega (arith, count-set is_parked calls i old c at_i, ap one_if e)
  counts_park true e h one =
      omega
        (arith, count-set is_parked calls i old c at_i, ap one_if e, room (parked calls) refl h one)

  kept_call-parks : parks calls ≤ 1 → parks (set calls i (kept_call calls i c)) ≤ 1
  unfolding kept_call
  kept_call-parks one = elim (Bool-cases (is_parked c && other_parked (parked calls) i)) [
    | inl deferred ↦
        rw deferred
          (omega (arith, count-set is_parked calls i old (new_call c.tool c.timeout) at_i))
    | inr counted ↦ rw counted (counts_park (is_parked c) refl counted one)
  ]

  kept_call-keys : call_key c ≡ call_key old → keys (set calls i (kept_call calls i c)) ≡ keys calls
  unfolding kept_call
  kept_call-keys same = map-set call_key calls i old _ at_i (kept_key _ c ∙ same)

-- What `record` promises of the round: the same calls, at most one of them parked.
abbrev pub RoundKept : List Call → List Call → Type 0
RoundKept before after = (keys after ≡ keys before) × (parks after ≤ 1)

module _ {W : Type 0} (rt : Runtime W) where
  record_at-kept :
      (i : ℕ) (old c : Call) (s : Recorded W)
      → get_elem? s.calls i ≡ some old
      → call_key c ≡ call_key old
      → parks s.calls ≤ 1
      → RoundKept s.calls (record_at rt i c s).calls
  unfolding record_at
  record_at-kept i old c s at_i same one =
      (kept_call-keys s.calls i old c at_i same, kept_call-parks s.calls i old c at_i one)

  record_found-kept :
      (c : Call) (s : Recorded W) (i : ℕ)
      → find_index? (λ rc. text_eq (call_key rc) (call_key c)) s.calls ≡ some i
      → parks s.calls ≤ 1
      → RoundKept s.calls (record_at rt i c s).calls
  record_found-kept c s i found one =
      let test = λ (rc : Call). text_eq (call_key rc) (call_key c) in
      let (old, at_i, named) = find_index?-some test s.calls i found in
      record_at-kept i old c s at_i (sym ((text_eq_iff _ _).0 named)) one

  record_outcome-kept :
      (failed : Option Failure) (c : Call) (s : Recorded W)
      → any (λ k. text_eq k (call_key c)) (keys s.calls) ≡ true
      → parks s.calls ≤ 1
      → (s' : Recorded W) × (record_outcome rt failed c s ≡ some s') × RoundKept s.calls s'.calls
  unfolding record_outcome
  record_outcome-kept (some e) c s named one = (_, refl, (refl, one))
  record_outcome-kept none c s named one =
      let test = λ (rc : Call). text_eq (call_key rc) (call_key c) in
      let (i, found) =
        find_index?-any test s.calls
          (sym (any-map (λ k. text_eq k (call_key c)) call_key s.calls) ∙ named) in
      (record_at rt i c s, rw found, record_found-kept c s i found one)

  -- Putting runs of the round's own calls back never panics. The round keeps its calls, in order,
  -- and has at most one parked call after it, if it had at most one before.
  pub record-keeps_one_park :
      (cs : List Call) (s : Recorded W)
      → All (λ c. any (λ k. text_eq k (call_key c)) (keys s.calls) ≡ true) cs
      → parks s.calls ≤ 1
      → (s' : Recorded W) × (record_calls rt cs s ≡ some s') × RoundKept s.calls s'.calls
  unfolding record_calls record_call
  record-keeps_one_park [] s named one = (s, refl, (refl, one))
  record-keeps_one_park (c ∷ cs) s named one =
      let (s1, first, kept) = record_outcome-kept c.failure c s named.0 one in
      let (s2, rest, kept2) = record-keeps_one_park cs s1 (rw kept.0 named.1) kept.1 in
      (s2, rw (first, record_calls) rest, (kept2.0 ∙ kept.0, kept2.1))
