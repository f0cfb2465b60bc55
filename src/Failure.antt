-- ===== src/Failure.antt =====
-- Errors: the text of a Go error, and the sentinels that `errors.Is` finds in it
-- (types.go, interrupt.go, session/types.go, vfs/errors.go).
use tacklr.Base.{
  ◌≡◌, refl, ◌⊎◌, inl, inr, ℕ, Bool, true, false, if◌then◌else◌, List, [], ◌∷◌, ◌++◌, Bytes, codes,
  ◌==◌, any,
}

pub data Sentinel : Type 0 where
  canceled deadline not_found invalid failed correction auth_expired : Sentinel
  cannot_count permission_denied interrupt_not_found invalid_payload : Sentinel
  session_not_found stale_checkpoint max_tokens context_length refused invalid_binding : Sentinel
  not_exist conflict stale_content : Sentinel

abbrev rank : Sentinel → ℕ
rank canceled = 0
rank deadline = 1
rank not_found = 2
rank invalid = 3
rank failed = 4
rank correction = 5
rank auth_expired = 6
rank cannot_count = 7
rank permission_denied = 8
rank interrupt_not_found = 9
rank invalid_payload = 10
rank session_not_found = 11
rank stale_checkpoint = 12
rank max_tokens = 13
rank context_length = 14
rank refused = 15
rank invalid_binding = 16
rank not_exist = 17
rank conflict = 18
rank stale_content = 19

pub record Failure : Type 0 where
  pub text : Bytes
  pub kinds : List Sentinel

-- `errors.Is(err, kind)`
unfoldable pub is : Failure → Sentinel → Bool
is err kind = any (λ k. rank k == rank kind) err.kinds

-- `fmt.Errorf("…: %w", kind)`
abbrev pub wrap : Bytes → Sentinel → Failure
wrap text kind = record { text = text; kinds = kind ∷ [] }

-- `fmt.Errorf` and `errors.New` of a text with no sentinel.
abbrev pub plain : Bytes → Failure
plain text = record { text = text; kinds = [] }

-- `context.Canceled`
abbrev pub context_canceled : Failure
context_canceled = wrap (codes "context canceled") canceled

-- `session.ErrContextLength`, which is also `ErrMaxTokens`.
abbrev pub err_context_length : Failure
err_context_length = record {
  text = codes "max tokens reached: the request is over the context window";
  kinds = context_length ∷ max_tokens ∷ [];
}

-- `errors.Join`: nil when nothing failed.
join_from : Failure → List Failure → Failure
join_from err [] = err
join_from err (e ∷ es) =
    join_from (record { text = err.text ++ b'\n' ∷ e.text; kinds = err.kinds ++ e.kinds }) es

-- A Go result with an error: its value, or why there is none.
pub data Result {ℓ} (T : Type ℓ) : Type ℓ where
  ok : (value : T) → Result T
  err : (failure : Failure) → Result T

module _ {ℓ κ} {S : Type ℓ} {T : Type κ} where
  -- `if err != nil { return err }`
  infixl 5 ◌>>=◌
  abbrev pub ◌>>=◌ : Result S → (S → Result T) → Result T
  err e >>= next = err e
  ok s >>= next = next s

  -- A chain that succeeded: its first part did, and so did the rest on its value.
  pub >>=-eq-ok :
      (first : Result S) (next : S → Result T) {t : T}
      → (first >>= next) ≡ ok t
      → (s : S) × (first ≡ ok s) × (next s ≡ ok t)
  >>=-eq-ok (err e) next done = absurd (cc done)
  >>=-eq-ok (ok s) next done = (s, refl, done)

unfoldable pub join : List Failure → Result (Unit {0})
unfolding join_from
join [] = ok tt
join (e ∷ es) = err (join_from e es)

-- Inversion of a guard: `if b { return err }`.
pub guard-eq-ok {ℓ} :
    {A : Type ℓ} (b : Bool) (e : Failure) (m : Result A) {a : A}
    → (if b then err e else m) ≡ ok a
    → (b ≡ false) × (m ≡ ok a)
guard-eq-ok true e m h = cc
guard-eq-ok false e m h = (refl, h)

pub Result-cases {ℓ} :
    {A : Type ℓ} (m : Result A) → ((e : Failure) × (m ≡ err e)) ⊎ ((a : A) × (m ≡ ok a))
Result-cases (ok a) = inr (a, refl)
Result-cases (err e) = inl (e, refl)
