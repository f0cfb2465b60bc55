-- ===== src/RemoteFiles/Reads.antt =====
-- What `ReadAt` reads of an object (vfs/ranged.go).
use tacklr.Base.{
  ℕ, zero, suc, ◌+◌, ◌-◌, ◌≤◌, ◌<◌, ◌≡◌, refl, sym, ◌∙◌, ap, subst, min, max, Bool-cases, inl, inr,
  true, ◌&&◌, ltb, leb, if◌then◌else◌, Option, none, some, [], ◌∷◌, ◌++◌, append_assoc, append-nil,
  length, length-take, length-drop, take-append-drop, take, drop, Bytes, pos, arith,
}
use tacklr.Failure.{Failure, ok}
use tacklr.RemoteFiles.{
  Fetch, RemoteFile, read_ahead, eof, read_full, read_reply, fetch_full, fill_from, fill, copied,
  outside_window, windowed, Read, read_loop, read_at,
}

-- The remote serves an object: a request gives the bytes that it names.
abbrev pub Serves : Fetch → Bytes → Type 0
Serves fetch object =
    (off n : ℕ) → fetch off (some n) ≡ ok (record { bytes = take n (drop off object); ends = none })

-- A file of an object: its size is the object's, and its window shows the object's bytes.
pub record IsView (object : Bytes) (f : RemoteFile) : Type 0 where
  pub size : f.size ≡ length object
  pub inside : f.win_off + length f.win ≤ length object
  pub shows : f.win ≡ take (length f.win) (drop f.win_off object)

abbrev no_bytes : Bytes
no_bytes = []

take-take : (a b : ℕ) (xs : Bytes) → take a (take b xs) ≡ take (min a b) xs
take-take zero b xs = ap (λ n. take n xs) {x = 0} (omega arith)
take-take (suc a) zero xs = ap (λ n. take n xs) {x = 0} (omega arith)
take-take (suc a) (suc b) [] = take-nil (min (suc a) (suc b))
  where
    take-nil : (n : ℕ) → [] ≡ take n no_bytes
    take-nil zero = refl
    take-nil (suc n) = refl
take-take (suc a) (suc b) (x ∷ xs) =
    ap (◌∷◌ x) (take-take a b xs) ∙ ap (λ n. take n (x ∷ xs)) {x = suc (min a b)} (omega arith)

drop-take : (a b : ℕ) (xs : Bytes) → drop a (take b xs) ≡ take (b - a) (drop a xs)
drop-take zero b xs = ap (λ n. take n xs) {x = b} (omega arith)
drop-take (suc a) zero xs = ap (λ n. take n (drop (suc a) xs)) {x = 0} (omega arith)
drop-take (suc a) (suc b) [] = take-nil (suc b - suc a)
  where
    take-nil : (n : ℕ) → [] ≡ take n no_bytes
    take-nil zero = refl
    take-nil (suc n) = refl
drop-take (suc a) (suc b) (x ∷ xs) =
    drop-take a b xs ∙ ap (λ n. take n (drop a xs)) {x = b - a} (omega arith)

drop-drop : (a b : ℕ) (xs : Bytes) → drop a (drop b xs) ≡ drop (b + a) xs
drop-drop a zero xs = ap (λ n. drop n xs) {x = a} (omega arith)
drop-drop zero (suc b) [] = drop-nil (suc b + 0)
  where
    drop-nil : (n : ℕ) → [] ≡ drop n no_bytes
    drop-nil zero = refl
    drop-nil (suc n) = refl
drop-drop (suc a) (suc b) [] = drop-nil (suc b + suc a)
  where
    drop-nil : (n : ℕ) → [] ≡ drop n no_bytes
    drop-nil zero = refl
    drop-nil (suc n) = refl
drop-drop a (suc b) (x ∷ xs) =
    drop-drop a b xs ∙ ap (λ n. drop n (x ∷ xs)) {x = suc (b + a)} (omega arith)

take-split : (k n : ℕ) (xs : Bytes) → k ≤ n → take k xs ++ take (n - k) (drop k xs) ≡ take n xs
take-split k n xs le =
    ap (λ s. s ++ take (n - k) (drop k xs))
      (sym (take-take k n xs ∙ ap (λ j. take j xs) {x = min k n} (omega (arith, le))))
    ∙ (ap (λ s. take k (take n xs) ++ s) (sym (drop-take k n xs)) ∙ take-append-drop k (take n xs))

drop_past : (n : ℕ) (xs : Bytes) → length xs ≤ n → drop n xs ≡ []
drop_past zero [] le = refl
drop_past zero (x ∷ xs) le = absurd (omega (arith, le))
drop_past (suc n) [] le = refl
drop_past (suc n) (x ∷ xs) le = drop_past n xs (omega (arith, le))

-- A file whose window has the byte at an offset.
record IsReady (object : Bytes) (at : ℕ) (r : Option Failure × RemoteFile) : Type 0 where
  fine : r.0 ≡ none
  view : IsView object r.1
  from : r.1.win_off ≤ at
  to : at < r.1.win_off + length r.1.win

fetch_full-Serves :
    (fetch : Fetch) (object : Bytes) (at n : ℕ)
    → Serves fetch object
    → at + n ≤ length object
    → fetch_full fetch at n ≡ ok (take n (drop at object))
unfolding fetch_full read_reply read_full
fetch_full-Serves fetch object at n serves le =
    let part = take n (drop at object) in
    let whole : leb n (length part) ≡ true =
      ground (arith, length-take n (drop at object), length-drop at object, le) in
    let same : take n part ≡ part =
      take-take n n (drop at object)
      ∙ ap (λ j. take j (drop at object)) {x = min n n} (omega arith) in
    rw (serves at n, whole, same) refl

fill-IsReady :
    (fetch : Fetch) (object : Bytes) (f : RemoteFile) (at need : ℕ)
    → Serves fetch object
    → IsView object f
    → at < length object
    → 0 < need
    → IsReady object at (fill fetch f at need)
unfolding fill fill_from
fill-IsReady fetch object f at need serves v lt some_need =
    let n = min (max need read_ahead) (f.size - at) in
    let part = take n (drop at object) in
    let fits : at + n ≤ length object = omega (arith, v.size, lt) in
    let some_bytes : 0 < n = omega (arith, v.size, lt, some_need) in
    let size : length part ≡ n =
      omega (arith, length-take n (drop at object), length-drop at object, fits) in
    subst (λ r. IsReady object at (fill_from f at r))
      (sym (fetch_full-Serves fetch object at n serves fits))
      (record {
        fine = refl;
        view = record {
          size = v.size;
          inside = omega (arith, size, fits);
          shows = ap (λ j. take j (drop at object)) (sym size);
        };
        from = omega arith;
        to = omega (arith, size, some_bytes);
      })

windowed-IsReady :
    (fetch : Fetch) (object : Bytes) (f : RemoteFile) (at need : ℕ)
    → Serves fetch object
    → IsView object f
    → at < length object
    → 0 < need
    → IsReady object at (windowed fetch f at need)
unfolding windowed
windowed-IsReady fetch object f at need serves v lt some_need =
    elim (Bool-cases (outside_window f at)) [
      | inl out ↦ rw out (fill-IsReady fetch object f at need serves v lt some_need)
      | inr held ↦
          rw held (record {
            fine = refl;
            view = v;
            from = ground (arith, held);
            to = ground (arith, held);
          })
    ]

-- The piece that a ready window gives.
copied-piece :
    (object : Bytes) (f : RemoteFile) (at need : ℕ)
    → IsView object f
    → f.win_off ≤ at
    → at < f.win_off + length f.win
    → (k : ℕ) × (length (copied f at need) ≡ k)
      × (k ≡ min need (f.win_off + length f.win - at))
      × (copied f at need ≡ take k (drop at object))
copied-piece object f at need v from to =
    let j = at - f.win_off in
    let l = length f.win in
    let k = min need (l - j) in
    let place : f.win_off + j ≡ at = omega (arith, from) in
    let piece : copied f at need ≡ take k (drop at object) =
      ap (λ w. take need (drop j w)) v.shows
      ∙ (ap (take need) (drop-take j l (drop f.win_off object))
          ∙ (take-take need (l - j) (drop j (drop f.win_off object))
              ∙ (ap (take k) (drop-drop j f.win_off object)
                  ∙ ap (λ i. take k (drop i object)) place))) in
    (
      k,
      ap length piece
          ∙ omega
              (arith, length-take k (drop at object), length-drop at object, v.inside, from, to),
      omega (arith, from, to),
      piece,
    )

-- What a read gives of an object.
record IsRead (object : Bytes) (at need : ℕ) (out : Bytes) (r : Read) : Type 0 where
  bytes : r.0 ≡ out ++ take need (drop at object)
  ends : r.1 ≡ (if ltb 0 need && ltb (length object) (at + need) then some eof else none)
  view : IsView object r.2

piece_rest :
    (object piece : Bytes) (at k n : ℕ)
    → length piece ≡ k
    → piece ≡ take k (drop at object)
    → k ≤ n
    → piece ++ take (n - length piece) (drop (at + length piece) object) ≡ take n (drop at object)
piece_rest object piece at k n size e le =
    ap (λ j. piece ++ take (n - j) (drop (at + j) object)) size
    ∙ (ap (λ p. p ++ take (n - k) (drop (at + k) object)) e
        ∙ (ap (λ s. take k (drop at object) ++ take (n - k) s) (sym (drop-drop k at object))
            ∙ take-split k n (drop at object) le))

same_end :
    (l at p k n : ℕ)
    → p ≡ k
    → k ≤ n
    → 1 ≤ k
    → at + k ≤ l
    → (ltb 0 (n - p) && ltb l (at + p + (n - p))) ≡ (ltb 0 n && ltb l (at + n))
same_end l at p k n size le some_bytes inside = ground (arith, size, le, some_bytes, inside)

read_loop-IsRead :
    (fetch : Fetch) (object : Bytes) (fuel : ℕ) (f : RemoteFile) (at need : ℕ) (out : Bytes)
    → Serves fetch object
    → IsView object f
    → need ≤ fuel
    → IsRead object at need out (read_loop fetch fuel f at need out)
unfolding read_loop
read_loop-IsRead fetch object fuel f at zero out serves v le = record {
  bytes = sym (append-nil out);
  ends = refl;
  view = v;
}
read_loop-IsRead fetch object zero f at (suc need) out serves v le = absurd (omega (arith, le))
read_loop-IsRead fetch object (suc fuel) f at (suc need) out serves v le =
    elim (Bool-cases (leb f.size at)) [
      | inl past ↦
          let nothing : drop at object ≡ [] = drop_past at object (ground (arith, past, v.size)) in
          let over : (ltb 0 (suc need) && ltb (length object) (at + suc need)) ≡ true =
            ground (arith, past, v.size) in
          rw past (record {
            bytes = sym (append-nil out) ∙ ap (λ s. out ++ take (suc need) s) (sym nothing);
            ends = rw over refl;
            view = v;
          })
      | inr within ↦
          let w = windowed fetch f at (suc need) in
          let ready =
            windowed-IsReady fetch object f at (suc need) serves v (ground (arith, within, v.size))
              (omega arith) in
          let (k, size, least, piece) =
            copied-piece object w.1 at (suc need) ready.view ready.from ready.to in
          let some_bytes : 1 ≤ k = omega (arith, least, ready.to) in
          let rest =
            read_loop-IsRead fetch object fuel w.1 (at + length (copied w.1 at (suc need)))
              (suc need - length (copied w.1 at (suc need))) (out ++ copied w.1 at (suc need))
              serves ready.view (omega (arith, size, some_bytes, le)) in
          let count : k ≤ suc need = omega (arith, least) in
          let in_object : at + k ≤ length object =
            omega (arith, least, ready.view.inside, ready.to) in
          rw (within, ready.fine)
            (record {
              bytes =
                  rest.bytes
                  ∙ (append_assoc out (copied w.1 at (suc need)) _
                      ∙ ap (◌++◌ out) (
                          piece_rest object (copied w.1 at (suc need)) at k (suc need) size piece
                            count));
              ends =
                  rest.ends
                  ∙ ap (λ b. if b then some eof else none)
                      (same_end (length object) at (length (copied w.1 at (suc need))) k (suc need)
                        size count some_bytes in_object);
              view = rest.view;
            })
    ]

-- When the remote serves the object, a read at an offset gives the object's bytes from there, as many as it asks for or as the object
-- has; it ends with EOF when it asked for more than there are, and with no error otherwise; and the window shows the object again.
pub read_at_lem :
    (fetch : Fetch) (object : Bytes) (f : RemoteFile) (n off : ℕ)
    → Serves fetch object
    → IsView object f
    → ((read_at fetch f n (pos off)).0 ≡ take n (drop off object))
      × ((read_at fetch f n (pos off)).1
          ≡ (if ltb 0 n && ltb (length object) (off + n) then some eof else none))
      × IsView object (read_at fetch f n (pos off)).2
unfolding read_at
read_at_lem fetch object f n off serves v =
    let r = read_loop-IsRead fetch object n f off n [] serves v (omega arith) in
    (r.bytes, r.ends, r.view)
