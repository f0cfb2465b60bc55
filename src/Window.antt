-- ===== src/Window.antt =====
-- The context window (window.go). The host and the model are a world of the window's own; `encoded` is
-- the encoded size of a request and of a message. The lock makes each operation one step. A message
-- is not nil. Over `w.size`, the pressure threshold `int(float64(w.size) * pressureRatio)` is a parameter.
pub mod Trims
pub mod Fit
mod Tests
use tacklr.Base.{
  ◌≡◌, refl, ℕ, zero, suc, ◌+◌, ◌-◌, ◌*◌, ◌/◌, Bool, true, false, not, ◌&&◌, ◌||◌, ltb, leb, ◌==◌,
  min, Option, none, some, List, [], ◌∷◌, ◌++◌, map, length, take, drop, keep, get_elem?, set,
  Bytes, codes, decimal, has_prefix, is_empty, if◌then◌else◌,
}
use tacklr.Failure.{
  Failure, Result, ok, err, plain, wrap, is, cannot_count, failed, err_context_length, join,
}
use tacklr.Message.{Message, tool, developer, text_message, is_tool, is_reasoning}

-- `requestCount`
pub record RequestCount : Type 0 where
  pub tokens : ℕ
  pub messages : ℕ

abbrev pub no_count : RequestCount
no_count = record { tokens = 0; messages = 0 }

-- The interface `windowHost`, with `CountTokens` of the model, over their world.
pub record Host (W : Type 0) : Type 0 where
  pub request_size : List Message → ℕ
  pub encoded : Message → ℕ
  pub count_tokens : List Message → W → Result ℕ × W
  pub summarize : List Message → W → Result Bytes × W
  pub archive : List Message → W → Result Bool × W
  pub keep_result : Bytes → Bytes → W → Result Bytes × W

-- `window`, with its host's world.
pub record Window (W : Type 0) : Type 0 where
  pub size : ℕ
  pub threshold : ℕ
  pub msgs : List Message
  pub count : RequestCount
  pub cannot_count : Bool
  pub world : W

-- `PROJECT PLAN`, a line of twelve U+2500, and newlines.
abbrev pub rule : ℕ → Bytes
rule zero = 10 ∷ []
rule (suc n) = 0xE2 ∷ (0x94 ∷ (0x80 ∷ rule n))

abbrev pub plan_document_prefix : Bytes
plan_document_prefix = codes "PROJECT PLAN\n" ++ rule 12

context_summary_prefix : Bytes
context_summary_prefix = codes "CONVERSATION SUMMARY\n" ++ rule 12

searchable_history_note : Bytes
searchable_history_note =
    codes
      "The full earlier conversation is saved. Use the search tool to find its exact messages, and open to read one."

continue_plan_nudge : Bytes
continue_plan_nudge =
    codes
      "The plan still has incomplete todos. Continue executing now: work the in-progress todo (or the next pending one), call tools as needed, and do not stop for user confirmation. Do not restate the handoff; act on the next todo."

-- `IsPlanDocument`
abbrev pub is_plan_document : Message → Bool
is_plan_document m = has_prefix m.content plan_document_prefix

-- `planDocument`
abbrev pub plan_document : Bytes → Message
plan_document raw = text_message developer (plan_document_prefix ++ raw)

-- `protectedPrefixLen`
unfoldable pub protected_prefix_len : List Message → ℕ
protected_prefix_len [] = 0
protected_prefix_len (m ∷ []) = 1
protected_prefix_len (m ∷ (p ∷ ms)) = if is_plan_document p then 2 else 1

-- `withoutReasoning`
abbrev pub without_reasoning : List Message → List Message
without_reasoning msgs = keep (λ m. not (is_reasoning m.role)) msgs

-- `truncationNote`
truncation_note : ℕ → ℕ → Bytes → Bytes
truncation_note kept total path =
    codes "\n\n[Output truncated to fit the context window: kept the first "
    ++ (decimal kept
        ++ (codes " of "
            ++ (decimal total
                ++ (if is_empty path
                    then codes " bytes. The full output was not kept.]"
                    else codes " bytes. The full output is at "
                      ++ (path ++ codes "; read it with start and end.]")))))

-- `utf8.RuneStart`
abbrev rune_start : ℕ → Bool
rune_start b = not (b / 64 == 2)

abbrev starts_at : Option ℕ → Bool
starts_at none = true
starts_at (some b) = rune_start b

-- The loop that steps back to the start of a rune.
unfoldable pub rune_floor : ℕ → Bytes → ℕ
rune_floor zero text = 0
rune_floor (suc n) text = elim (starts_at (get_elem? text (suc n))) [
  | true ↦ suc n
  | false ↦ rune_floor n text
]

-- `messagesSize`
abbrev pub messages_size : (Message → ℕ) → List Message → ℕ
messages_size encoded [] = 0
messages_size encoded (m ∷ ms) = encoded m + messages_size encoded ms

-- A result of the round as `trim` sees it: the message, with what is kept of its first content, that
-- content and where it is once it is cut.
pub record Cut : Type 0 where
  pub kept : ℕ
  pub full : Bytes
  pub path : Bytes

pub record Part : Type 0 where
  pub message : Message
  pub cut : Option Cut

-- `size` of `trim`
abbrev pub part_size : Part → ℕ
part_size p = elim p.cut [ none ↦ length p.message.content | some c ↦ c.kept ]

abbrev pub cuttable : Part → Bool
cuttable p = is_tool p.message.role && ltb 0 (part_size p)

-- The larger of the first largest results of a part and of the parts after it, by its place.
abbrev larger : ℕ → Option (ℕ × ℕ) → ℕ × ℕ
larger n none = (0, n)
larger n (some (i, m)) = if ltb n m then (suc i, m) else (0, n)

abbrev after : Option (ℕ × ℕ) → Option (ℕ × ℕ)
after none = none
after (some (i, m)) = some (suc i, m)

-- The first largest result that can be cut, with its size.
unfoldable pub largest : List Part → Option (ℕ × ℕ)
largest [] = none
largest (p ∷ ps) =
    let rest = largest ps in if cuttable p then some (larger (part_size p) rest) else after rest

abbrev pub messages_of : List Part → List Message
messages_of ps = map (λ (p : Part). p.message) ps

abbrev pub whole : Message → Part
whole m = record { message = m; cut = none }

-- The bytes that the loop can still cut.
abbrev pub left : List Part → ℕ
left [] = 0
left (p ∷ ps) = part_size p + left ps

module _ {W : Type 0} (h : Host W) where
  -- `bound`; `messages` is within the window.
  abbrev pub bound : RequestCount → List Message → List Message → ℕ
  bound c msgs round =
      if c.tokens == 0
      then h.request_size (msgs ++ round)
      else c.tokens + messages_size h.encoded (drop c.messages msgs) + messages_size h.encoded round

  asked_count : Result ℕ → ℕ → Window W → Result ℕ × Window W
  asked_count (ok n) bounded w = (ok n, w)
  asked_count (err e) bounded w =
      if is e cannot_count
      then (ok bounded, record w { cannot_count = true })
      else (err (record { text = codes "count tokens: " ++ e.text; kinds = e.kinds }), w)

  -- `measure`
  unfoldable pub measure :
      RequestCount → List Message → List Message → Window W → Result ℕ × Window W
  unfolding asked_count
  measure c msgs round w = elim w.cannot_count [
    | true ↦ (ok (bound c msgs round), w)
    | false ↦
        let (r, world) = h.count_tokens (msgs ++ round) w.world in
        asked_count r (bound c msgs round) (record w { world = world })
  ]

  staged : Bytes → Result Bytes → Result Cut
  staged text (ok path) = ok (record { kept = length text; full = text; path = path })
  staged text (err e) =
      err (record { text = codes "stage full tool result: " ++ e.text; kinds = e.kinds })

  -- A part's first cut keeps its full text; a later one has it.
  full_text : Part → Window W → Result Cut × Window W
  unfolding staged
  full_text p w = elim p.cut [
    | some c ↦ (ok c, w)
    | none ↦
        let text = p.message.content in
        let (r, world) = h.keep_result p.message.tool_call_id text w.world in
        (staged text r, record w { world = world })
  ]

  -- The part cut to a share of `size` in `n` tokens.
  unfoldable pub cut_part : Part → Cut → ℕ → ℕ → Part
  unfolding rune_floor truncation_note
  cut_part p c size n =
      let kept = rune_floor (c.kept * size / n) c.full in
      record {
        message = record p.message {
          content = take kept c.full ++ truncation_note kept (length c.full) c.path;
        };
        cut = some (record c { kept = kept });
      }

  -- The loop of `trim`, over a round that needs `n` tokens. The fuel is for its passes.
  unfoldable pub trim_loop :
      ℕ
      → RequestCount
      → List Message
      → List Part
      → ℕ
      → Window W
      → Option (Result (List Message) × Window W)
  unfolding largest measure full_text cut_part
  trim_loop zero c msgs parts n w = none
  trim_loop (suc fuel) c msgs parts n w = elim (ltb w.size n) [
    | false ↦ some (ok (messages_of parts), w)
    | true ↦ elim (largest parts) [
      | none ↦ some (err (wrap (codes "the round does not fit the context window") failed), w)
      | some (i, size) ↦ elim (get_elem? parts i) [
        | none ↦ none
        | some p ↦
            let (r, w1) = full_text p w in
            elim r [
              | err e ↦ some (err e, w1)
              | ok full ↦
                  let parts' = set parts i (cut_part p full w1.size n) in
                  let (m, w2) = measure c msgs (messages_of parts') w1 in
                  elim m [ err e ↦ some (err e, w2) | ok n' ↦ trim_loop fuel c msgs parts' n' w2 ]
            ]
      ]
    ]
  ]

  -- `trim`: each pass keeps fewer bytes, so there are at most as many as the round has.
  unfoldable pub trim :
      RequestCount
      → List Message
      → List Message
      → ℕ
      → Window W
      → Option (Result (List Message) × Window W)
  unfolding trim_loop
  trim c msgs round n w = trim_loop (suc (left (map whole round))) c msgs (map whole round) n w
