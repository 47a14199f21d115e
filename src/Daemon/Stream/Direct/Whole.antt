-- ===== src/Daemon/Stream/Direct/Whole.antt =====
-- internal/daemon/directio.go: the loops of writeAllAt and writeStreamDirect end, and the length of
-- the stream that a write consumes.
use bsos.Base.{
  ℕ, zero, suc, ◌+◌, ◌-◌, ◌*◌, ◌%◌, ◌≤◌, ◌<◌, ◌≡◌, refl, true, false, List, [], ◌∷◌, ◌++◌, Option,
  none, some, length, take, drop, replicate, length-take, length-drop, min, ltb, ◌==◌, Bool-cases,
  Option-cases, inl, inr, arith,
}
use bsos.Blk.Layout.{slot_size}
use bsos.Daemon.Errors.{Error, io_failed, unexpected_eof}
use bsos.Daemon.Device.{DeviceFile}
use bsos.Daemon.Stream.{Stream, end_of_stream}
use bsos.Daemon.Stream.Direct.{
  direct_chunk_bytes, direct_rounds, write_all_loop, write_all_at, wanted, read_error_of,
  direct_loop, write_stream_direct,
}

module _ (d : DeviceFile) where
  -- On any device, writeAllAt returns within as many calls of WriteAt as there are bytes to write.
  pub write_all_loop_ends :
      (fuel : ℕ) (f : d.File) (buf : List ℕ) (off : ℕ)
      → length buf ≤ fuel
      → (done : d.File × Option Error) × (write_all_loop d fuel f buf off ≡ some done)
  unfolding write_all_loop
  write_all_loop_ends fuel f [] off h = ((f, none), refl)
  write_all_loop_ends zero f (b ∷ bs) off h = absurd (omega (arith, h))
  write_all_loop_ends (suc fuel) f (b ∷ bs) off h =
      let w = (d.write_at f off (b ∷ bs)).1 in
      elim (Bool-cases w.failed) [
        | inl bad ↦ (((d.write_at f off (b ∷ bs)).0, some io_failed), rw (bad, write_all_loop) refl)
        | inr good ↦ elim (Bool-cases (w.count == 0)) [
          | inl stuck ↦ (
            ((d.write_at f off (b ∷ bs)).0, some unexpected_eof),
            rw (good, stuck, write_all_loop) refl,
          )
          | inr moved ↦
              let (done, eq) =
                write_all_loop_ends fuel (d.write_at f off (b ∷ bs)).0 (drop w.count (b ∷ bs))
                  (off + w.count)
                  (let len = length-drop w.count (b ∷ bs) in ground (arith, moved, len)) in
              (done, rw (good, moved, write_all_loop) eq)
        ]
      ]

  -- What the tests of a round say where they pass before the object's end.
  read_error_of-none :
      (r : Stream) (real_size written want : ℕ)
      → written < real_size
      → read_error_of r real_size written want ≡ none
      → (length (take want r.bytes) ≡ want)
        × (written + want ≡ real_size → (written + length r.bytes ≡ real_size) × (r.fault ≡ false))
  unfolding read_error_of end_of_stream
  read_error_of-none r real_size written want lt h =
      let on : ltb written real_size ≡ true = ground (arith, lt) in
      let dropped = length-drop want r.bytes in
      let taken = length-take want r.bytes in
      (
        ground (arith, h, on),
        λ e. (ground (arith, h, on, e, dropped, taken), ground (arith, h, on, e)),
      )

  wanted_before :
      (real_size written chunk_len : ℕ)
      → written < real_size
      → wanted real_size written chunk_len ≡ min (real_size - written) chunk_len
  unfolding wanted
  wanted_before real_size written chunk_len lt = ground (arith, lt)

  direct_loop-length :
      (rounds : ℕ) (f : d.File) (addr real_size total : ℕ) (r : Stream) (written : ℕ)
      → written < real_size
      → real_size ≤ total
      → total ≤ written + rounds * direct_chunk_bytes
      → (direct_loop d rounds f addr real_size total r written).1 ≡ none
      → (written + length r.bytes ≡ real_size) × (r.fault ≡ false)
  unfolding direct_loop
  direct_loop-length zero f addr real_size total r written lt le enough h =
      absurd (omega (arith, lt, le, enough))
  direct_loop-length (suc rounds) f addr real_size total r written lt le enough h =
      let chunk_len : ℕ = min direct_chunk_bytes (total - written) in
      let want : ℕ = min (real_size - written) chunk_len in
      let buf : List ℕ = take want r.bytes ++ replicate (chunk_len - want) 0 in
      let wrote = write_all_at d f buf (addr + written) in
      let on : ltb written total ≡ true = ground (arith, lt, le) in
      let reads : wanted real_size written chunk_len ≡ want =
        wanted_before real_size written chunk_len lt in
      elim (Option-cases (read_error_of r real_size written want)) [
        | inr (e, x) ↦ absurd (ground (arith, rw (on, direct_loop, reads, x) at h))
        | inl x ↦ elim (Option-cases wrote.1) [
          | inr (e, y) ↦ absurd (ground (arith, rw (on, direct_loop, reads, x, reads, y) at h))
          | inl y ↦
              let (full, ended) = read_error_of-none r real_size written want lt x in
              elim (Bool-cases (written + want == real_size)) [
                | inl last ↦ ended (ground (arith, last))
                | inr more ↦
                    let rest : (direct_loop d rounds wrote.0 addr real_size total
                          (record r { bytes = drop want r.bytes }) (written + chunk_len)).1
                        ≡ none =
                      rw (on, direct_loop, reads, x, reads, y, reads) at h in
                    let (len, clean) =
                      direct_loop-length rounds wrote.0 addr real_size total
                        (record r { bytes = drop want r.bytes }) (written + chunk_len)
                        (ground (arith, more, le)) le (omega (arith, enough, le)) rest in
                    (
                      ground (
                        arith,
                        more,
                        len,
                        le,
                        full,
                        length-take want r.bytes,
                        length-drop want r.bytes,
                      ),
                      clean,
                    )
              ]
        ]
      ]

  -- A direct write of an object that is not empty and fits into its slots succeeds only if the
  -- stream has exactly the declared size and ends without a failure.
  pub write_stream_direct-length :
      (f : d.File) (addr real_size total : ℕ) (r : Stream)
      → 0 < real_size
      → real_size ≤ total
      → (write_stream_direct d f addr real_size total r).1 ≡ none
      → (length r.bytes ≡ real_size) × (r.fault ≡ false)
  unfolding write_stream_direct
  write_stream_direct-length f addr real_size total r pos le h =
      elim (Bool-cases (total % slot_size == 0)) [
        | inr uneven ↦ absurd (ground (arith, rw uneven at h))
        | inl even ↦
            let (len, clean) =
              direct_loop-length (direct_rounds total) f addr real_size total r 0 pos le
                (omega arith) (rw even at h) in
            (omega (arith, len), clean)
      ]
