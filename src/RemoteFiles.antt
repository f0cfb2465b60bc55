-- ===== src/RemoteFiles.antt =====
-- A read handle on a remote object (vfs/ranged.go). The requests to the remote are a parameter, `fetch`: what `fetchRange` gives for
-- an offset and a count, a body and what ends it, `none` the end of the body; a count of `none` is "to the end".
pub mod Reads
mod Tests
use tacklr.Base.{
  ℕ, zero, suc, ◌+◌, ◌-◌, ◌^◌, min, max, Bool, true, false, ◌||◌, ◌&&◌, ltb, leb, ◌==◌,
  if◌then◌else◌, Option, none, some, List, [], ◌∷◌, ◌++◌, length, take, drop, Bytes, codes,
  is_empty, ℤ, pos, negsuc,
}
use tacklr.Failure.{Failure, Result, ok, err, plain}

abbrev pub read_ahead : ℕ
read_ahead = 2 ^ 20

abbrev pub eof : Failure
eof = plain (codes "EOF")

abbrev unexpected_eof : Failure
unexpected_eof = plain (codes "unexpected EOF")

abbrev negative_offset : Failure
negative_offset = plain (codes "vfs: negative offset")

-- The body of a response.
pub record Body : Type 0 where
  pub bytes : Bytes
  pub ends : Option Failure

abbrev pub Fetch : Type 0
Fetch = ℕ → Option ℕ → Result Body

-- `remoteFile`
pub record RemoteFile : Type 0 where
  pub size : ℕ
  pub body : Option Body
  pub win : Bytes
  pub win_off : ℕ

-- `newRemoteFile`
unfoldable pub new_remote_file : ℕ → RemoteFile
new_remote_file size = record { size = size; body = none; win = []; win_off = 0 }

-- `io.ReadFull` into a buffer of so many bytes.
unfoldable pub read_full : ℕ → Body → Result Bytes
read_full n b = if leb n (length b.bytes) then ok (take n b.bytes) else elim b.ends [
  | some e ↦ err e
  | none ↦ err (if is_empty b.bytes then eof else unexpected_eof)
]

-- What a request of so many bytes gives, read in full.
unfoldable pub read_reply : ℕ → Result Body → Result Bytes
read_reply n (err e) = err e
read_reply n (ok b) = read_full n b

unfoldable pub fetch_full : Fetch → ℕ → ℕ → Result Bytes
fetch_full fetch off n = read_reply n (fetch off (some n))

-- A window that was filled, or one that a failure left empty.
unfoldable pub fill_from : RemoteFile → ℕ → Result Bytes → Option Failure × RemoteFile
fill_from f off (err e) = (some e, record f { win = [] })
fill_from f off (ok buf) = (none, record f { win = buf; win_off = off })

-- `fill`
unfoldable pub fill : Fetch → RemoteFile → ℕ → ℕ → Option Failure × RemoteFile
fill fetch f off want =
    fill_from f off (fetch_full fetch off (min (max want read_ahead) (f.size - off)))

-- The window's bytes from an offset, at most so many.
abbrev pub copied : RemoteFile → ℕ → ℕ → Bytes
copied f at need = take need (drop (at - f.win_off) f.win)

abbrev pub outside_window : RemoteFile → ℕ → Bool
outside_window f at = ltb at f.win_off || leb (f.win_off + length f.win) at

-- The file with a window for an offset.
unfoldable pub windowed : Fetch → RemoteFile → ℕ → ℕ → Option Failure × RemoteFile
windowed fetch f at need = if outside_window f at then fill fetch f at need else (none, f)

-- What is read, why the read ends, and the file after it.
abbrev pub Read : Type 0
Read = Bytes × Option Failure × RemoteFile

-- The loop of `ReadAt` from an offset, for so many bytes that are still to come; each pass copies one at least.
unfoldable pub read_loop : Fetch → ℕ → RemoteFile → ℕ → ℕ → Bytes → Read
read_loop fetch fuel f at zero out = (out, none, f)
read_loop fetch zero f at (suc need) out = (out, none, f)
read_loop fetch (suc fuel) f at (suc need) out =
    let (failed, f') = windowed fetch f at (suc need) in
    let piece = copied f' at (suc need) in
    let rest =
      read_loop fetch fuel f' (at + length piece) (suc need - length piece) (out ++ piece) in
    if leb f.size at
    then (out, some eof, f)
    else (elim failed [ some e ↦ (out, some e, f') | none ↦ rest ])

-- `ReadAt` for so many bytes.
unfoldable pub read_at : Fetch → RemoteFile → ℕ → ℤ → Read
read_at fetch f n (pos off) = read_loop fetch n f off n []
read_at fetch f n (negsuc k) = ([], some negative_offset, f)

-- The body of the first `Read`.
opened : Fetch → RemoteFile → Result Body
opened fetch f = elim f.body [ some b ↦ ok b | none ↦ fetch 0 none ]

-- `Read` when the body gives what is asked for, or all that it has; at its end it gives what ends it.
unfoldable pub read : Fetch → RemoteFile → ℕ → Read
unfolding opened
read fetch f n = elim (opened fetch f) [
  | err e ↦ ([], some e, f)
  | ok b ↦
      let got = take n b.bytes in
      let failed =
        if is_empty b.bytes && ltb 0 n
        then (elim b.ends [ none ↦ some eof | some e ↦ some e ])
        else none in
      (got, failed, record f { body = some (record b { bytes = drop n b.bytes }) })
]
