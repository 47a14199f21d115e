-- ===== src/Daemon/Stream/Exact.antt =====
-- internal/daemon/state.go: the length of the stream that a write consumes.
use bsos.Base.{
  ℕ, zero, suc, ◌+◌, ◌-◌, ◌*◌, ◌≤◌, ◌≡◌, false, List, none, length, take, drop, length-take,
  length-drop, min, ltb, ◌==◌, Bool-cases, Option-cases, inl, inr, arith,
}
use bsos.Daemon.Device.{DeviceFile, PreparedWrite}
use bsos.Daemon.Stream.{
  Stream, write_chunk, write_rounds, end_of_stream, write_exact, write_some, write_from,
}

module _ (d : DeviceFile) where
  write_exact-length :
      (rounds : ℕ) (f : d.File) (addr total : ℕ) (r : Stream) (written : ℕ)
      → written ≤ total
      → total ≤ written + rounds * write_chunk
      → (write_exact d rounds f addr total r written).1 ≡ none
      → (written + length r.bytes ≡ total) × (r.fault ≡ false)
  unfolding write_exact end_of_stream
  write_exact-length zero f addr total r written le enough h = ground (arith, h)
  write_exact-length (suc rounds) f addr total r written le enough h =
      elim (Bool-cases (ltb written total)) [
        | inr done ↦ ground (arith, rw (done, write_exact) at h)
        | inl on ↦
            let want : ℕ = min write_chunk (total - written) in
            let buf : List ℕ = take want r.bytes in
            let wrote = write_some d f (addr + written) buf in
            elim (Option-cases wrote.1) [
              | inr (e, w) ↦ absurd (ground (arith, rw (on, w, write_exact) at h))
              | inl w ↦ elim (Bool-cases (length buf == want)) [
                | inr part ↦ absurd (ground (arith, rw (on, w, part, write_exact) at h))
                | inl full ↦
                    let (len, fault) =
                      write_exact-length rounds wrote.0 addr total
                        (record r { bytes = drop want r.bytes }) (written + length buf)
                        (ground (arith, length-take want r.bytes)) (ground (arith, full))
                        (rw (on, w, full, write_exact) at h) in
                    (omega (arith, len, length-take want r.bytes, length-drop want r.bytes), fault)
              ]
            ]
      ]

  -- A write to an extent that succeeds has consumed a stream of exactly the declared size, which
  -- ended without a failure.
  pub write_from-length :
      (f : d.File) (pw : PreparedWrite) (r : Stream)
      → (write_from d f pw r).1 ≡ none
      → (length r.bytes ≡ pw.size) × (r.fault ≡ false)
  unfolding write_from
  write_from-length f pw r h =
      elim (Option-cases (write_exact d (write_rounds pw.size) f pw.addr pw.size r 0).1) [
        | inr (e, w) ↦ absurd (ground (arith, rw (w, write_from) at h))
        | inl w ↦
            let (len, clean) =
              write_exact-length (write_rounds pw.size) f pw.addr pw.size r 0 (omega arith)
                (omega arith) w in
            (omega (arith, len), clean)
      ]
