-- ===== src/Writes/Paths.antt =====
-- Virtual paths (vfs/path.go).
use tacklr.Base.{
  ℕ, Bool, false, not, ◌||◌, ◌==◌, if◌then◌else◌, List, [], ◌∷◌, ◌++◌, Bytes, codes, text_eq,
  is_empty, any, trim_space,
}
use tacklr.Failure.{Failure, Result, ok, err, plain}

abbrev pub invalid_path : Failure
invalid_path = plain (codes "vfs: invalid path")

-- The segments between slashes.
abbrev onto_segment : ℕ → List Bytes → List Bytes
onto_segment c [] = (c ∷ []) ∷ []
onto_segment c (s ∷ ss) = (c ∷ s) ∷ ss

segments : Bytes → List Bytes
segments [] = [] ∷ []
segments (c ∷ s) = if c == b'/' then [] ∷ segments s else onto_segment c (segments s)

abbrev tail_of : List Bytes → List Bytes
tail_of [] = []
tail_of (s ∷ ss) = ss

-- The segments that are left, the last one first: `.` is dropped and `..` drops one.
kept_segments : List Bytes → List Bytes → List Bytes
kept_segments stack [] = stack
kept_segments stack (s ∷ ss) =
    kept_segments
      (if is_empty s || text_eq s (codes ".")
        then stack
        else if text_eq s (codes "..")
        then tail_of stack
        else s ∷ stack)
      ss

rooted : List Bytes → Bytes → Bytes
rooted [] out = out
rooted (s ∷ stack) out = rooted stack (b'/' ∷ (s ++ out))

-- `path.Clean` of a rooted path.
unfoldable pub clean_rooted : Bytes → Bytes
unfolding segments kept_segments rooted
clean_rooted s =
    let out = rooted (kept_segments [] (segments s)) [] in if is_empty out then b'/' ∷ [] else out

is_rooted : Bytes → Bool
is_rooted [] = false
is_rooted (c ∷ s) = c == b'/'

-- `CleanPath`
unfoldable pub clean_path : Bytes → Result Bytes
unfolding is_rooted
clean_path s =
    let t = trim_space s in
    if is_empty t || not (is_rooted t) || any (λ c. c == b'\\' || c == 0) t
    then err invalid_path
    else ok (clean_rooted t)

-- `validMemberName`
unfoldable pub valid_member_name : Bytes → Bool
valid_member_name s =
    let t = trim_space s in
    not (
      is_empty t
      || any (λ c. c == b'/' || c == b'\\' || c == 0) t
      || text_eq t (codes ".")
      || text_eq t (codes ".."))
