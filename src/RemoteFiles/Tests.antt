-- ===== src/RemoteFiles/Tests.antt =====
-- A remote object of nine bytes.
use tacklr.Base.{
  ◌≡◌, refl, ltb, ◌&&◌, ◌+◌, if◌then◌else◌, none, some, Bytes, codes, take, drop, length, pos,
  arith,
}
use tacklr.Failure.{ok}
use tacklr.RemoteFiles.{Fetch, new_remote_file, read_at, eof}
use tacklr.RemoteFiles.Reads.{IsView, read_at_lem}

abbrev object : Bytes
object = codes "an object"

abbrev serve : Fetch
serve off none = ok (record { bytes = drop off object; ends = none })
serve off (some n) = ok (record { bytes = take n (drop off object); ends = none })

read_at_lem_example :
    ((read_at serve (new_remote_file 9) 6 (pos 3)).0 ≡ take 6 (drop 3 object))
    × ((read_at serve (new_remote_file 9) 6 (pos 3)).1
        ≡ (if ltb 0 6 && ltb (length object) (3 + 6) then some eof else none))
    × IsView object (read_at serve (new_remote_file 9) 6 (pos 3)).2
unfolding new_remote_file
read_at_lem_example =
    read_at_lem serve object (new_remote_file 9) 6 3 (λ off n. refl)
      (record { size = refl; inside = omega arith; shows = refl })
