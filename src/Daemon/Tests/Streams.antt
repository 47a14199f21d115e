-- ===== src/Daemon/Tests/Streams.antt =====
-- The streams of the daemon at concrete inputs.
use bsos.Base.{
  ℕ, suc, ◌≡◌, refl, true, false, List, [], ◌∷◌, replicate, Option, some, length, arith,
}
use bsos.Daemon.Errors.{Error}
use bsos.Daemon.Stream.{Stream, end_of_stream, short_read}
use bsos.Daemon.Stream.Direct.{
  write_all_loop, write_all_at, wanted, read_error_of, direct_loop, write_stream_direct,
}
use bsos.Daemon.Stream.Direct.Whole.{write_all_loop_ends, write_stream_direct-length}
use bsos.Daemon.Device.{DeviceFile}
use bsos.Daemon.Server.{chunk}
use bsos.Daemon.Server.Incoming.{ChunkReader, read_full}
use bsos.Daemon.Server.Incoming.Whole.{stream_of, IsReadFull, read_full-IsReadFull}

-- A device that takes one byte of each write.
abbrev slow : DeviceFile
slow = record {
  File = ℕ;
  read_at = λ f off n. some (replicate n 0);
  write_at = λ f off buf. (suc f, record { count = 1; failed = false });
  sync = λ f. (f, true);
}

abbrev steady : DeviceFile
steady = record {
  File = ℕ;
  read_at = λ f off n. some (replicate n 0);
  write_at = λ f off buf. (suc f, record { count = length buf; failed = false });
  sync = λ f. (f, true);
}

abbrev two_bytes : List ℕ
two_bytes = 1 ∷ 2 ∷ []

write_all_loop_ends_example :
    (done : ℕ × Option Error) × (write_all_loop slow 2 0 two_bytes 8192 ≡ some done)
write_all_loop_ends_example = write_all_loop_ends slow 2 0 two_bytes 8192 (omega arith)

abbrev three_bytes : Stream
three_bytes = record { bytes = 1 ∷ 2 ∷ 3 ∷ []; fault = false }

write_stream_direct-length_example : (length three_bytes.bytes ≡ 3) × (three_bytes.fault ≡ false)
unfolding write_stream_direct direct_loop read_error_of wanted write_all_at write_all_loop
    end_of_stream short_read
write_stream_direct-length_example =
    write_stream_direct-length steady 0 8192 3 4096 three_bytes (omega arith) (omega arith) refl

abbrev reader : ChunkReader
reader = record {
  buf = [];
  incoming = chunk two_bytes ∷ chunk [] ∷ chunk (3 ∷ []) ∷ [];
  broken = false;
}

read_full-IsReadFull_example : IsReadFull (stream_of reader) 3 (read_full 3 3 reader)
read_full-IsReadFull_example = read_full-IsReadFull 3 3 reader (omega arith)
