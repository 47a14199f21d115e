-- ===== src/Client/Chunked/Range.antt =====
-- pkg/client/cdc.go: what GetCDC writes for a range.
use bsos.Base.{
  ℕ, ◌+◌, ◌-◌, ◌≤◌, ◌<◌, ◌≡◌, refl, ap, ◌∙◌, true, false, List, [], ◌∷◌, ◌++◌, append_nil,
  append_assoc, none, length, length-append, length-drop, take, drop, take_nil, drop_nil, take-min,
  take-append, drop-append, All, min, ltb, leb, u64_mod, ◌&&◌, Bool-cases, Result, ok, inl, inr,
  arith,
}
use bsos.Daemon.Server.Ranges.{part}
use bsos.Client.{Failure}
use bsos.Client.Upload.{joined}
use bsos.Client.Download.{buffer}
use bsos.Client.Manifest.{ChunkDescriptor}
use bsos.Client.Chunked.{window, outside, write_window, get_cdc_loop}

-- A range of two parts put together, with the bounds of each part.
part-append :
    (xs ys : List ℕ) (a b a' b' m : ℕ)
    → a ≤ b
    → a' ≡ a - length xs
    → b' ≡ b - length xs
    → m ≡ min b (length xs)
    → part (xs ++ ys) a b ≡ part xs a m ++ part ys a' b'
part-append xs ys a b a' b' m le ha hb hm =
    ap (take (b - a)) (drop-append a a' xs ys ha)
    ∙ take-append (b - a) (b' - a') (drop a xs) (drop a' ys)
        (omega (arith, le, ha, hb, length-drop a xs))
    ∙ ap (λ t. t ++ part ys a' b')
        (take-min (b - a) (m - a) (drop a xs) (omega (arith, le, hm, length-drop a xs)))

module _ (hash : List ℕ → ℕ) where
  -- The descriptors of consecutive pieces, from an offset on.
  abbrev pub descriptors : ℕ → List (List ℕ) → List ChunkDescriptor
  descriptors offset [] = []
  descriptors offset (bs ∷ bss) =
      record { fid = hash bs; offset = offset; size = length bs }
      ∷ descriptors (offset + length bs) bss

  module _ {Conn : Type 0} (fetch : Conn → ℕ → Conn × Result Failure (List ℕ)) where
    -- Each piece is there under its hash.
    abbrev pub AreServed : List (List ℕ) → Type 0
    AreServed pieces = All (λ bs. (c : Conn) → (fetch c (hash bs)).1 ≡ ok bs) pieces

    module _ (ch : ChunkDescriptor) (start end : ℕ) (bs : List ℕ) (size : ch.size ≡ length bs)
        (fits : ch.offset + length bs < u64_mod) (le : start ≤ end) where
      -- A chunk that is not outside the range gives it the bytes between the clamped bounds.
      window-clamped :
          outside ch start end ≡ false
          → ((window ch start end).0 ≡ start - ch.offset)
            × ((window ch start end).1 ≡ min (end - ch.offset) (length bs))
      unfolding window outside
      window-clamped inside = (ground arith, ground (arith, inside))

      write_window-part :
          (out : List ℕ)
          → outside ch start end ≡ false
          → write_window fetch buffer ch start end bs out
            ≡ (out ++ part bs (start - ch.offset) (min (end - ch.offset) (length bs)), none)
      unfolding write_window
      write_window-part out inside =
          let a : ℕ = start - ch.offset in
          let b : ℕ = min (end - ch.offset) (length bs) in
          let (at_a, at_b) = window-clamped inside in
          elim (Bool-cases (ltb a b && leb b (length bs))) [
            | inl some_bytes ↦ rw (write_window, at_a, at_b, some_bytes) refl
            | inr empty ↦
                let none_left : b - a ≡ 0 = ground (arith, empty) in
                rw (write_window, at_a, at_b, empty, none_left, append_nil out) refl
          ]

      -- A chunk outside the range has no bytes of it.
      outside-part :
          outside ch start end ≡ true
          → part bs (start - ch.offset) (min (end - ch.offset) (length bs)) ≡ []
      unfolding outside
      outside-part out =
          let none_left : min (end - ch.offset) (length bs) - (start - ch.offset) ≡ 0 =
            ground (arith, out) in
          rw none_left refl

    pub get_cdc_loop-part :
        (pieces : List (List ℕ)) (offset start end : ℕ) (c : Conn) (out : List ℕ)
        → AreServed pieces
        → offset + length (joined pieces) < u64_mod
        → start ≤ end
        → ((get_cdc_loop fetch buffer (descriptors offset pieces) start end c out).1
            ≡ out ++ part (joined pieces) (start - offset) (end - offset))
          × ((get_cdc_loop fetch buffer (descriptors offset pieces) start end c out).2 ≡ none)
    unfolding get_cdc_loop
    get_cdc_loop-part [] offset start end c out served fits le =
        rw (get_cdc_loop, drop_nil (start - offset), take_nil, append_nil out) (refl, refl)
    get_cdc_loop-part (bs ∷ bss) offset start end c out served fits le =
        let ch : ChunkDescriptor = record { fid = hash bs; offset = offset; size = length bs } in
        let next : ℕ = offset + length bs in
        let room : next + length (joined bss) < u64_mod =
          omega (arith, fits, length-append bs (joined bss)) in
        let split =
          part-append bs (joined bss) (start - offset) (end - offset) (start - next) (end - next)
            (min (end - offset) (length bs)) (omega (arith, le)) (omega arith) (omega arith) refl in
        elim (Bool-cases (outside ch start end)) [
          | inl out_of ↦
              let (eq, fine) = get_cdc_loop-part bss next start end c out served.1 room le in
              rw
                (
                  get_cdc_loop,
                  out_of,
                  split,
                  outside-part ch start end bs refl (omega (arith, room)) le out_of,
                )
                (eq, fine)
          | inr inside ↦
              let mine : List ℕ = part bs (start - offset) (min (end - offset) (length bs)) in
              let (eq, fine) =
                get_cdc_loop-part bss next start end (fetch c (hash bs)).0 (out ++ mine) served.1
                  room le in
              let wrote =
                write_window-part ch start end bs refl (omega (arith, room)) le out inside in
              rw (get_cdc_loop, inside, served.0 c, wrote, wrote, split)
                (eq ∙ append_assoc out mine _, fine)
        ]

    window_short :
        (ch : ChunkDescriptor) (start end : ℕ) (bs out : List ℕ)
        → length bs < ch.size
        → ch.offset + ch.size < u64_mod
        → start ≤ ch.offset
        → ch.offset + ch.size ≤ end
        → (outside ch start end ≡ false)
          × (write_window fetch buffer ch start end bs out ≡ (out, none))
    unfolding outside write_window window
    window_short ch start end bs out short fits low high = (ground arith, ground arith)

    -- A chunk that the range covers and whose object is shorter than the manifest says is left out
    -- of what GetCDC writes, and GetCDC succeeds all the same.
    get_cdc_loop_short :
        (ch : ChunkDescriptor) (start end : ℕ) (c : Conn) (bs out : List ℕ)
        → (fetch c ch.fid).1 ≡ ok bs
        → length bs < ch.size
        → ch.offset + ch.size < u64_mod
        → start ≤ ch.offset
        → ch.offset + ch.size ≤ end
        → get_cdc_loop fetch buffer (ch ∷ []) start end c out ≡ ((fetch c ch.fid).0, out, none)
    unfolding get_cdc_loop
    get_cdc_loop_short ch start end c bs out got short fits low high =
        let (inside, skipped) = window_short ch start end bs out short fits low high in
        rw (get_cdc_loop, inside, got, skipped, skipped) refl
