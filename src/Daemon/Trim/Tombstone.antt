-- ===== src/Daemon/Trim/Tombstone.antt =====
-- internal/daemon/trim.go: the entry that deletes an object, in a replay.
use bsos.Base.{
  ltb, ◌≤◌, ◌*◌, ◌∙◌, length, if◌then◌else◌, ℕ, zero, suc, ◌+◌, ◌/◌, ◌%◌, ◌^◌, ◌<◌, ◌≡◌, refl, true,
  false, List, ◌∷◌, ◌++◌, none, IsU64, ◌==◌, ok, Bool-cases, inl, inr, arith,
}
use bsos.Blk.Layout.{grid_start, index_start}
use bsos.Blk.Entry.Codec.{length-entry_bytes}
use bsos.Daemon.Replay.{empty_state, more}
use bsos.Daemon.Replay.Append.{replay_entries-append}
use bsos.Daemon.Device.{DeviceFile, DeviceState}
use bsos.Daemon.Trim.{append_tombstone, write_plain}
use bsos.Base.Maps.{lookup, delete, lookup-delete}
use bsos.Base.Bytes.{le_bytes}
use bsos.Blk.Entry.{is_zero_entry, is_packed_anchor, is_jump_indicator, is_tombstone}
use bsos.Blk.Entry.Codec.{entry_bytes, parse-build}
use bsos.Daemon.Replay.{ReplayState, stopped, replay_entries, replay_entry, replay_unpaired}

abbrev pub buried : ReplayState → ℕ → ReplayState
buried st fid = record st {
  refs = delete fid st.refs;
  packed = delete fid st.packed;
  extents_map = delete fid st.extents_map;
}

-- The tombstone of fid 0 is the end of the index for a replay.
replay_entries-tombstone_zero :
    (disk_bytes off : ℕ) (later : List (List ℕ)) (st : ReplayState)
    → replay_entries disk_bytes off (entry_bytes 0 0 0 ∷ later) st ≡ ok (stopped off st)
unfolding replay_entries le_bytes
replay_entries-tombstone_zero disk_bytes off later st = refl

-- A number whose bytes are all zero is 0.
zero_number :
    (n v : ℕ) (rest : List ℕ) → is_zero_entry (le_bytes n v ++ rest) ≡ true → v < 256 ^ n → v ≡ 0
unfolding le_bytes
zero_number zero v rest z h = omega (arith, h)
zero_number (suc n) v rest z h = elim (Bool-cases (v % 256 == 0)) [
  | inr nz ↦ absurd (ground (arith, z, nz))
  | inl low ↦
      ground (arith, low, zero_number n (v / 256) rest (ground (arith, z, low)) (omega (arith, h)))
]

-- With no packed pair waiting, the tombstone of another 64-bit fid deletes its reference, its
-- packed record and its extent, and the replay goes on with what follows.
replay_entries-tombstone :
    (disk_bytes off fid : ℕ) (later : List (List ℕ)) (st : ReplayState)
    → IsU64 fid
    → 0 < fid
    → st.pending_packed ≡ none
    → (replay_entries disk_bytes off (entry_bytes fid 0 0 ∷ later) st
        ≡ replay_entries disk_bytes (off + 16) later (buried st fid))
      × (lookup fid (buried st fid).refs ≡ none)
unfolding replay_entries replay_entry replay_unpaired is_packed_anchor is_jump_indicator
    is_tombstone
replay_entries-tombstone disk_bytes off fid later st hf pos pend = (
  rw (not_zero, (parse-build fid 0 0 hf (omega arith, inl refl)).1, step, replay_entries) refl,
  ground (arith, lookup-delete fid fid st.refs),
)
  where
    step :
        replay_entry disk_bytes st (record { fid = fid; size = 0; jump_code = 0 })
        ≡ ok (buried st fid)
    step = ground (arith, pend)

    not_zero : is_zero_entry (entry_bytes fid 0 0) ≡ false
    not_zero = elim (Bool-cases (is_zero_entry (entry_bytes fid 0 0))) [
      | inr nz ↦ nz
      | inl z ↦ absurd (omega (arith, pos, zero_number 8 fid _ z (omega (arith, hf))))
    ]

replay_tombstone :
    (disk_bytes off fid : ℕ) (later : List (List ℕ)) (st : ReplayState)
    → IsU64 fid
    → st.pending_packed ≡ none
    → replay_entries disk_bytes off (entry_bytes fid 0 0 ∷ later) st ≡ (
        if fid == 0
        then ok (stopped off st)
        else replay_entries disk_bytes (off + 16) later (buried st fid))
replay_tombstone disk_bytes off zero later st hf pend =
    replay_entries-tombstone_zero disk_bytes off later st
replay_tombstone disk_bytes off (suc n) later st hf pend =
    ground (arith, replay_entries-tombstone disk_bytes off (suc n) later st hf (omega arith) pend)

-- On a device whose write does not fail, and with room in the index, the tombstone of a 64-bit fid
-- is written at the end of the index without an error. A replay that has scanned the stream so far,
-- with no packed pair waiting, then deletes the reference, the packed record and the extent of the
-- fid and goes on with what follows, but for fid 0: there it ends, deletes nothing, and reads
-- nothing of what follows.
pub append_tombstone-replay_entries :
    (d : DeviceFile) (s : DeviceState d.File) (fid : ℕ) (raws later : List (List ℕ))
    (st : ReplayState)
    → IsU64 fid
    → s.index_end + 16 ≤ grid_start
    → (d.write_at s.file s.index_end (entry_bytes fid 0 0)).1.failed ≡ false
    → replay_entries s.disk_bytes index_start raws empty_state ≡ ok (more st)
    → st.pending_packed ≡ none
    → (append_tombstone d s fid ≡ (
      record s {
        file = (d.write_at s.file s.index_end (entry_bytes fid 0 0)).0;
        index_end = s.index_end + 16;
      },
      none,
    ))
      × (replay_entries s.disk_bytes index_start (raws ++ (entry_bytes fid 0 0 ∷ later)) empty_state
          ≡ (if fid == 0
              then ok (stopped (index_start + 16 * length raws) st)
              else replay_entries s.disk_bytes
                  (index_start + 16 * length raws + 16)
                  later
                  (buried st fid)))
unfolding append_tombstone write_plain
append_tombstone-replay_entries d s fid raws later st hf room wrote scanned pend = (
  rw
      (
        (parse-build fid 0 0 hf (omega arith, inl refl)).0,
        append_tombstone,
        length-entry_bytes fid 0 0,
        fits,
      )
      (ground (arith, wrote, length-entry_bytes fid 0 0)),
  replay_entries-append s.disk_bytes index_start raws (entry_bytes fid 0 0 ∷ later) empty_state st
        scanned
      ∙ replay_tombstone s.disk_bytes (index_start + 16 * length raws) fid later st hf pend,
)
  where
    fits : ltb grid_start (s.index_end + 16) ≡ false
    fits = ground (arith, room)
