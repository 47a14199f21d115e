-- ===== src/Daemon/Server/Incoming/Whole.antt =====
-- internal/daemon/server.go: the reader of a Put's messages as the stream of their bytes.
use bsos.Base.{
  ℕ, zero, suc, ◌-◌, ◌≤◌, ◌<◌, ◌≡◌, refl, sym, ap, ◌∙◌, subst, leb, Bool, true, List, [], ◌∷◌, ◌++◌,
  Option, none, some, length, length-append, length-take, length-drop, take, drop, take-append,
  drop-append, if◌then◌else◌, Bool-cases, Option-cases, inl, inr, arith,
}
use bsos.Daemon.Stream.{Stream}
use bsos.Daemon.Server.{PutRequest, header, chunk}
use bsos.Daemon.Server.Incoming.{
  ReadEnd, end_of_input, failed, ChunkReader, Got, refill, read, read_full,
}

-- The bytes of the chunks up to a header, which ends the stream with a failure.
abbrev chunk_bytes : List PutRequest → List ℕ
chunk_bytes [] = []
chunk_bytes (header h ∷ ms) = []
chunk_bytes (chunk bs ∷ ms) = bs ++ chunk_bytes ms

abbrev ends_badly : List PutRequest → Bool → Bool
ends_badly [] broken = broken
ends_badly (header h ∷ ms) broken = true
ends_badly (chunk bs ∷ ms) broken = ends_badly ms broken

-- The stream that a reader stands for.
abbrev pub stream_of : ChunkReader → Stream
stream_of r = record {
  bytes = r.buf ++ chunk_bytes r.incoming;
  fault = ends_badly r.incoming r.broken;
}

abbrev end_of : Bool → ReadEnd
end_of fault = if fault then failed else end_of_input

module _ (buf : List ℕ) (ms : List PutRequest) (broken : Bool) where
  abbrev start : ChunkReader
  start = record { buf = buf; incoming = ms; broken = broken }

-- A refill that succeeds has a byte and stands for the same stream.
refill_on :
    (buf : List ℕ) (ms : List PutRequest) (broken : Bool)
    → (refill buf ms broken).1 ≡ none
    → (0 < length (refill buf ms broken).0.buf)
      × (stream_of (refill buf ms broken).0 ≡ stream_of (start buf ms broken))
unfolding refill
refill_on (b ∷ bs) ms broken h = (omega arith, refl)
refill_on [] [] broken h = absurd (ground (arith, h))
refill_on [] (header x ∷ ms) broken h = absurd (ground (arith, h))
refill_on [] (chunk bs ∷ ms) broken h = refill_on bs ms broken h

-- One that fails was at the end of the stream.
refill_end :
    (buf : List ℕ) (ms : List PutRequest) (broken : Bool) (e : ReadEnd)
    → (refill buf ms broken).1 ≡ some e
    → ((stream_of (start buf ms broken)).bytes ≡ [])
      × (e ≡ end_of (stream_of (start buf ms broken)).fault)
unfolding refill
refill_end (b ∷ bs) ms broken e h = absurd (ground (arith, h))
refill_end [] [] broken e h = (refl, ground (arith, h))
refill_end [] (header x ∷ ms) broken e h = (refl, ground (arith, h))
refill_end [] (chunk bs ∷ ms) broken e h = refill_end bs ms broken e h

module _ {ℓ} {A : Type ℓ} where
  drop_all : (n : ℕ) (xs : List A) → length xs ≤ n → drop n xs ≡ []
  drop_all zero [] h = refl
  drop_all zero (x ∷ xs) h = absurd (omega (arith, h))
  drop_all (suc n) [] h = refl
  drop_all (suc n) (x ∷ xs) h = drop_all n xs (omega (arith, h))

  -- Reading n items of a buffer, and the rest of them from what follows.
  split_read :
      (n m : ℕ) (xs ys : List A)
      → m ≡ n - length xs
      → (take n xs ++ take m (drop n xs ++ ys) ≡ take n (xs ++ ys))
        × (drop m (drop n xs ++ ys) ≡ drop n (xs ++ ys))
  split_read n m xs ys e = elim (Bool-cases (leb n (length xs))) [
    | inl inside ↦
        let enough : m ≡ 0 = ground (arith, e, inside) in
        rw
          (
            enough,
            take-append n 0 xs ys (ground (arith, inside)),
            drop-append n 0 xs ys (ground (arith, inside)),
          )
          (refl, refl)
    | inr beyond ↦
        rw
          (
            drop_all n xs (ground (arith, beyond)),
            take-append n m xs ys e,
            drop-append n m xs ys e,
            drop_all n xs (ground (arith, beyond)),
          )
          (refl, refl)
  ]

-- What ReadFull of n bytes does to a stream.
abbrev pub IsReadFull : Stream → ℕ → Got → Type 0
IsReadFull s n got =
    (got.bytes ≡ take n s.bytes)
    × (n ≤ length s.bytes
        → (got.ended ≡ none) × (stream_of got.reader ≡ record s { bytes = drop n s.bytes }))
    × (length s.bytes < n → got.ended ≡ some (end_of s.fault))

module _ (rounds n : ℕ) (r : ChunkReader) where
  abbrev filled : ChunkReader × Option ReadEnd
  filled = refill r.buf r.incoming r.broken

  -- What is left to read, and the reader behind the first Read.
  abbrev left : ℕ
  left = suc n - length (take (suc n) filled.0.buf)

  abbrev behind : ChunkReader
  behind = record (filled.0) { buf = drop (suc n) filled.0.buf }

  read_full_end :
      (e : ReadEnd)
      → filled.1 ≡ some e
      → read_full (suc rounds) (suc n) r ≡ record { bytes = []; reader = filled.0; ended = some e }
  unfolding read_full read
  read_full_end e h = ground (arith, h)

  read_full_on :
      filled.1 ≡ none
      → read_full (suc rounds) (suc n) r ≡ record {
        bytes = take (suc n) filled.0.buf ++ (read_full rounds left behind).bytes;
        reader = (read_full rounds left behind).reader;
        ended = (read_full rounds left behind).ended;
      }
  unfolding read_full read
  read_full_on h = ground (arith, h)

abbrev with_bytes : List PutRequest → Bool → List ℕ → Stream
with_bytes ms broken bs = record { bytes = bs; fault = ends_badly ms broken }

-- With as many rounds as bytes asked for, ReadFull over the messages of a Put is ReadFull over the
-- stream of their bytes: it gives these bytes and leaves the rest, and where there are too few it
-- ends with the end of the input or, where a header or a failed Recv follows, with a failure.
pub read_full-IsReadFull :
    (rounds n : ℕ) (r : ChunkReader)
    → n ≤ rounds
    → IsReadFull (stream_of r) n (read_full rounds n r)
unfolding read_full
read_full-IsReadFull zero zero r h = (refl, λ _. (refl, refl), λ lt. absurd (omega (arith, lt)))
read_full-IsReadFull zero (suc n) r h = absurd (omega (arith, h))
read_full-IsReadFull (suc rounds) zero r h =
    (refl, λ _. (refl, refl), λ lt. absurd (omega (arith, lt)))
read_full-IsReadFull (suc rounds) (suc n) r h = elim (Option-cases (filled rounds n r).1) [
  | inr (e, w) ↦
      let (empty, at_end) = refill_end r.buf r.incoming r.broken e w in
      subst (IsReadFull (stream_of r) (suc n)) (sym (read_full_end rounds n r e w))
        (rw empty (refl, λ le. absurd (omega (arith, le)), λ _. ap some at_end))
  | inl w ↦
      let (pos, same) = refill_on r.buf r.incoming r.broken w in
      let r' : ChunkReader = (filled rounds n r).0 in
      let tail : List ℕ = chunk_bytes r'.incoming in
      let m : ℕ = left rounds n r in
      let taken = length-take (suc n) r'.buf in
      let (bytes, on, end) =
        read_full-IsReadFull rounds m (behind rounds n r) (ground (arith, pos, taken, h)) in
      let all = length-append r'.buf tail in
      let behind_all = length-append (drop (suc n) r'.buf) tail in
      let dropped = length-drop (suc n) r'.buf in
      let (taking, dropping) = split_read (suc n) m r'.buf tail (omega (arith, taken)) in
      subst (λ s. IsReadFull s (suc n) (read_full (suc rounds) (suc n) r)) same
        (subst (IsReadFull (stream_of r') (suc n)) (sym (read_full_on rounds n r w)) (
          ap (take (suc n) r'.buf ++◌) bytes ∙ taking,
          (λ le.
              let (fine, stream) = on (omega (arith, le, taken, all, behind_all, dropped)) in
              (fine, stream ∙ ap (with_bytes r'.incoming r'.broken) dropping)),
          λ lt. end (omega (arith, lt, taken, all, behind_all, dropped)),
        ))
]
