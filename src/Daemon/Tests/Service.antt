-- ===== src/Daemon/Tests/Service.antt =====
-- The gate, the pool and the requests at concrete inputs.
use bsos.Base.{
  arith, ℕ, suc, ◌+◌, ◌-◌, ◌*◌, ◌/◌, ◌≡◌, ◌≢◌, refl, Bool, true, false, List, [], ◌∷◌, none, some,
  some_of, All, length, replicate, Result, ok, err,
}
use bsos.Base.Maps.{lookup}
use bsos.Base.Bytes.{le_bytes}
use bsos.Blk.Layout.{grid_start, slot_size, index_start}
use bsos.Blk.Addr.{addr_for_fid}
use bsos.Blk.Entry.{build_index_entry, encode_size7}
use bsos.Daemon.Errors.{Error, conflict, not_found, io_failed}
use bsos.Daemon.Interval.{overlaps, reserve_extent}
use bsos.Daemon.Gate.{
  PoolGate, new_pool_gate, is_pending, reserve, check_confirmed, add_all, add_pending,
}
use bsos.Daemon.Gate.Reservation.{reserve-reserve}
use bsos.Daemon.Chd.{
  chd_search, count_success, sample_fits, any_overlap, chd_success_rate, sample_fids, chd_samples,
  required_samples, compute_chd,
}
use bsos.Daemon.Chd.Search.{IsEdge, compute_chd-IsEdge}
use bsos.Daemon.Stream.{
  Stream, write_from, write_exact, write_some, write_buffer, write_zeros, end_of_stream, short_read,
}
use bsos.Daemon.Stream.Exact.{write_from-length}
use bsos.Daemon.Replay.{whole_ref}
use bsos.Daemon.Device.{
  DeviceFile, DeviceState, prepare_write, commit, check_commit, commit_bytes, write_commit,
  write_synced, commit_tables,
}
use bsos.Daemon.Device.Guards.{SameTables}
use bsos.Daemon.Pool.{
  Disk, can_write, confirmed_anywhere, is_zram_path, select_disk_for_write, pick_zram, pick_loop,
  pick_non_zram, smaller, larger, current_chd,
}
use bsos.Daemon.Pool.Answers.{is_found, confirmed_anywhere-answer}
use bsos.Daemon.Pool.BestFit.{IsSelected, select_disk_for_write-IsSelected}
use bsos.Daemon.Stream.Context.{write_from_context}
use bsos.Daemon.Server.{Server, PutHeader, PutContext, internal, put_on_disk, put_prepared, put}
use bsos.Daemon.Server.Put.{put_on_disk-failed, put_on_disk-stored, put-gate}
use bsos.Daemon.Server.Ranges.{part}

-- A device that counts its writes and never fails.
abbrev steady : DeviceFile
steady = record {
  File = ℕ;
  read_at = λ f off n. some (replicate n 0);
  write_at = λ f off buf. (suc f, record { count = length buf; failed = false });
  sync = λ f. (f, true);
}

abbrev empty_disk : DeviceState ℕ
empty_disk = record {
  file = 0;
  direct_file = none;
  disk_id = 1;
  disk_bytes = grid_start + 16 * slot_size;
  extents = record { intervals = []; pending_intervals = []; index_err = none };
  confirmed = [];
  packed = [];
  index_end = index_start;
}

abbrev header : PutHeader
header = record { fid = 7; total_size = 3; alias_for = 9 }

abbrev three_bytes : Stream
three_bytes = record { bytes = 1 ∷ 2 ∷ 3 ∷ []; fault = false }

abbrev two_bytes : Stream
two_bytes = record { bytes = 1 ∷ 2 ∷ []; fault = false }

abbrev in_time : PutContext
in_time = record { acquired = true; canceled_late = false }

put_works : (put_on_disk steady empty_disk header three_bytes in_time).1 ≡ none
unfolding put_on_disk put_prepared prepare_write addr_for_fid reserve_extent overlaps write_from
    write_exact write_some write_buffer write_zeros end_of_stream commit check_commit commit_bytes
    build_index_entry encode_size7 le_bytes write_commit write_synced commit_tables lookup
    write_from_context
put_works = refl

put_on_disk-stored_example :
    (length three_bytes.bytes ≡ header.total_size)
    × (three_bytes.fault ≡ false)
    × (lookup header.fid empty_disk.confirmed ≡ none)
    × (lookup header.fid (put_on_disk steady empty_disk header three_bytes in_time).0.confirmed
        ≡ some (whole_ref header.fid header.total_size header.total_size))
    × (header.alias_for ≢ 0
        → lookup header.alias_for
            (put_on_disk steady empty_disk header three_bytes in_time).0.confirmed
          ≡ some (whole_ref header.fid header.total_size (header.total_size - 1)))
put_on_disk-stored_example =
    put_on_disk-stored steady empty_disk header three_bytes in_time (omega arith) (omega arith)
      (omega arith) put_works

put_on_disk-failed_example :
    SameTables (put_on_disk steady empty_disk header two_bytes in_time).0 empty_disk
unfolding put_on_disk put_prepared prepare_write addr_for_fid reserve_extent overlaps write_from
    write_exact write_some write_buffer end_of_stream short_read write_from_context
put_on_disk-failed_example =
    put_on_disk-failed steady empty_disk header two_bytes in_time (internal _) refl

abbrev first_samples : ℕ → ℕ → ℕ
first_samples disk_id i = i

abbrev one_disk : List (Disk ℕ)
one_disk = record { base = 115 ∷ 100 ∷ 97 ∷ []; state = empty_disk } ∷ []

abbrev server : Server ℕ
server = record { disks = one_disk; gate = new_pool_gate; max_put = 0; small_file_bytes = 4096 }

put-gate_example :
    is_pending (put steady first_samples 13 server header three_bytes in_time).0.gate 7
    ≡ is_pending server.gate 7
put-gate_example = put-gate steady first_samples 13 server header three_bytes in_time 7

abbrev nothing_confirmed : ℕ → Result Error Bool
nothing_confirmed fid = ok false

abbrev granted : PoolGate
granted = record { pending = 9 ∷ 7 ∷ [] }

reserve_works : reserve new_pool_gate 7 9 nothing_confirmed ≡ ok granted
unfolding reserve check_confirmed add_all add_pending is_pending
reserve_works = refl

reserve-reserve_example : reserve granted 9 0 nothing_confirmed ≡ err conflict
reserve-reserve_example =
    reserve-reserve new_pool_gate granted 7 9 9 0 nothing_confirmed reserve_works refl

compute_chd-IsEdge_example :
    (n : ℕ) × (compute_chd first_samples 13 (grid_start + 16 * slot_size) 1 [] ≡ n * slot_size)
    × IsEdge
        (λ slots.
          chd_success_rate
            (grid_start + 16 * slot_size)
            []
            (sample_fids first_samples 1 0 chd_samples)
            slots
            (required_samples 13))
        ((grid_start + 16 * slot_size - grid_start) / slot_size)
        n
compute_chd-IsEdge_example = compute_chd-IsEdge first_samples 13 (grid_start + 16 * slot_size) 1 []

write_from-length_example : (length three_bytes.bytes ≡ 3) × (three_bytes.fault ≡ false)
unfolding write_from write_exact write_some write_buffer write_zeros end_of_stream
write_from-length_example =
    write_from-length steady 0
      (record { fid = 7; size = 3; addr = grid_start; iv = record { start = 7; end = 7 } })
      three_bytes refl

abbrev arrivals : List (Result Error Bool)
arrivals = err io_failed ∷ ok true ∷ ok false ∷ []

confirmed_anywhere-answer_example :
    (some_of is_found arrivals ≡ true → confirmed_anywhere arrivals ≡ ok true)
    × (confirmed_anywhere arrivals ≡ ok true → some_of is_found arrivals ≡ true)
    × (confirmed_anywhere arrivals ≡ ok false → All (λ r. r ≡ ok false) arrivals)
confirmed_anywhere-answer_example = confirmed_anywhere-answer arrivals

abbrev replies : List (Result Error (List ℕ × ℕ))
replies = err not_found ∷ err io_failed ∷ ok (1 ∷ [], 1) ∷ []

abbrev content : List ℕ
content = 1 ∷ 2 ∷ 3 ∷ 4 ∷ []

abbrev read_content : ℕ → ℕ → Result Error (List ℕ)
read_content a b = ok (part content a b)

abbrev two : ℕ
two = 2

abbrev five : ℕ
five = 5

select_disk_for_write-IsSelected_example : IsSelected first_samples 13 5000 4096 one_disk 0
unfolding select_disk_for_write pick_zram pick_loop pick_non_zram smaller larger is_zram_path
    can_write current_chd compute_chd chd_search chd_success_rate count_success sample_fits
    any_overlap sample_fids addr_for_fid overlaps
select_disk_for_write-IsSelected_example =
    select_disk_for_write-IsSelected first_samples 13 5000 4096 one_disk 0 refl
