-- ===== src/Cells/Sheets.antt =====
-- The sheets of a spreadsheet, and how a key finds one (vfs/tabular.go).
use tacklr.Base.{
  ℕ, ◌+◌, ◌||◌, ltb, if◌then◌else◌, Option, none, some, List, [], ◌∷◌, ◌++◌, Bytes, codes, text_eq,
  is_empty, decimal, Dict, insert, trim_space,
}
use tacklr.Documents.Blocks.{Unicode, slugify, uses}
use tacklr.Failure.{Failure, plain}

-- A sheet whose cells have its shape: what each displays, by its row and column from 0 on.
pub record Sheet : Type 0 where
  pub id : Bytes
  pub title : Bytes
  pub rows : ℕ
  pub cols : ℕ
  pub cells : ℕ → ℕ → Bytes

abbrev pub unknown_block : Failure
unknown_block = plain (codes "vfs: unknown block_id")

abbrev pub sheet_segment : Unicode → Bytes → Bytes
sheet_segment u title = let seg = slugify u title in if is_empty seg then codes "sheet" else seg

-- `sheetBlockID` of the `n`-th sheet of one segment.
unfoldable pub sheet_block_id : Bytes → ℕ → Bytes
sheet_block_id seg n = if ltb 1 n then seg ++ b'-' ∷ decimal n else seg

-- The first loop of `findSheet`: an id or a title that is the key.
unfoldable pub find_named : Bytes → List Sheet → Option Sheet
find_named key [] = none
find_named key (sh ∷ shs) =
    if text_eq sh.id key || text_eq sh.title key then some sh else find_named key shs

-- Its second loop: a block id that is the key.
unfoldable pub find_block_id : Unicode → Bytes → Dict ℕ → List Sheet → Option Sheet
find_block_id u key used [] = none
find_block_id u key used (sh ∷ shs) =
    let seg = sheet_segment u sh.title in
    let n = uses seg used + 1 in
    if text_eq (sheet_block_id seg n) key
    then some sh
    else find_block_id u key (insert seg n used) shs

abbrev or_block_id : Unicode → Bytes → List Sheet → Option Sheet → Option Sheet
or_block_id u key sheets (some sh) = some sh
or_block_id u key sheets none = find_block_id u key [] sheets

abbrev only_sheet : List Sheet → Option Sheet
only_sheet [] = none
only_sheet (sh ∷ []) = some sh
only_sheet (sh ∷ other ∷ shs) = none

-- `findSheet`: the sheet at the index that it answers.
unfoldable pub find_sheet : Unicode → List Sheet → Bytes → Option Sheet
find_sheet u sheets key =
    let k = trim_space key in
    if is_empty k then only_sheet sheets else or_block_id u k sheets (find_named k sheets)
