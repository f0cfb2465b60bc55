-- ===== src/Writes/Substrings.antt =====
-- The searches of package strings that a replacement of a substring uses (vfs/mutate.go).
use tacklr.Base.{
  ℕ, zero, suc, if◌then◌else◌, Option, none, some, [], ◌∷◌, ◌++◌, length, drop, Bytes, has_prefix,
}

-- A text around the first occurrence of another: what stands before it and after it.
unfoldable pub find_sub : Bytes → Bytes → Option (Bytes × Bytes)
find_sub old [] = if has_prefix [] old then some ([], []) else none
find_sub old (c ∷ s) =
    let rest = find_sub old s in
    if has_prefix (c ∷ s) old
    then some ([], drop (length old) (c ∷ s))
    else (elim rest [ none ↦ none | some around ↦ some (c ∷ around.0, around.1) ])

-- `strings.Count` of a text that is not empty: occurrences that do not overlap, at most as many as there are bytes.
count_from : ℕ → Bytes → Bytes → ℕ
count_from zero old s = 0
count_from (suc fuel) old s = elim (find_sub old s) [
  | none ↦ 0
  | some around ↦ suc (count_from fuel old around.1)
]

unfoldable pub count_of : Bytes → Bytes → ℕ
unfolding count_from
count_of s old = count_from (length s) old s

-- `strings.Replace` of so many occurrences at most.
unfoldable pub replace_first : ℕ → Bytes → Bytes → Bytes → Bytes
replace_first zero old new s = s
replace_first (suc n) old new s = elim (find_sub old s) [
  | none ↦ s
  | some around ↦ around.0 ++ (new ++ replace_first n old new around.1)
]
