-- ===== src/Client/Jump/Files.antt =====
-- pkg/client/client.go: PutFileWithJumpRetry against PutWithJumpRetry of the file's bytes.
use bsos.Base.{
  ℕ, zero, suc, ◌<◌, ◌≡◌, refl, ap, true, false, List, Option, none, length, ltb, leb, Bool-cases,
  Option-cases, inl, inr, arith,
}
use bsos.Daemon.Stream.{Stream}
use bsos.Daemon.Server.{PutHeader}
use bsos.Client.{Failure, is_conflict, is_idempotent_conflict, max_atomic_payload_size}
use bsos.Client.Jump.{
  LocalFile, JumpResult, direct_header, jump_loop, file_jump_loop, bad_file, put_file_atomic,
  put_with_jump_retry, put_with_jump_retry_collision, put_hashed_file, put_large_file,
  put_file_with_jump_retry, max_jumps_of, reader, jump_data, jump_header,
}

-- A file that is there and gives its bytes, as many as it says, every time it is read.
abbrev pub readable_file : List ℕ → LocalFile
readable_file bs = record {
  missing = false;
  directory = false;
  size = length bs;
  openable = true;
  rewindable = true;
  content = reader bs;
}

module _ (hash : List ℕ → ℕ) {Conn : Type 0}
    (put : Conn → PutHeader → Stream → Conn × Option Failure) (bs : List ℕ) where
  -- An answer but for the flag that the object was there.
  abbrev pub place_of : Conn × JumpResult × Option Failure → Conn × ℕ × ℕ × ℕ × Option Failure
  place_of (c, result, e) = (c, result.fid, result.target_fid, result.jumps_taken, e)

  file_jump_loop-jump_loop :
      (left : ℕ) (c : Conn) (fid code max_jumps : ℕ)
      → file_jump_loop hash put left c (readable_file bs) fid code max_jumps
        ≡ jump_loop hash put left c bs fid code max_jumps
  unfolding file_jump_loop jump_loop
  file_jump_loop-jump_loop zero c fid code max_jumps = refl
  file_jump_loop-jump_loop (suc left) c fid code max_jumps =
      let done = put c (jump_header hash bs fid code) (reader (jump_data bs code)) in
      elim (Option-cases done.1) [
        | inl w ↦ rw (w, file_jump_loop, jump_loop) refl
        | inr (e, w) ↦ elim (Bool-cases (is_conflict e)) [
          | inr other ↦ rw (w, other, file_jump_loop, jump_loop) refl
          | inl conflict ↦
              rw (w, conflict, file_jump_loop, jump_loop)
                (file_jump_loop-jump_loop left done.0 fid (suc code) max_jumps)
        ]
      ]

  put_hashed_file-place :
      (c : Conn) (wanted : ℕ)
      → place_of (put_hashed_file hash put c (readable_file bs) (hash bs) (max_jumps_of wanted))
        ≡ place_of (put_with_jump_retry hash put c bs wanted)
  unfolding put_hashed_file put_with_jump_retry put_with_jump_retry_collision
  put_hashed_file-place c wanted =
      let done = put c (direct_header hash bs) (reader bs) in
      elim (Option-cases done.1) [
        | inl w ↦ rw (w, put_hashed_file, put_with_jump_retry) refl
        | inr (e, w) ↦ elim (Bool-cases (is_conflict e)) [
          | inr other ↦ rw (w, other, put_hashed_file, put_with_jump_retry) refl
          | inl conflict ↦ elim (Bool-cases (is_idempotent_conflict e)) [
            | inl same ↦ rw (w, conflict, same, put_hashed_file, put_with_jump_retry) refl
            | inr collision ↦
                rw (w, conflict, collision, put_hashed_file, put_with_jump_retry)
                  (ap place_of (
                    file_jump_loop-jump_loop (max_jumps_of wanted) done.0 (hash bs) 1
                      (max_jumps_of wanted)))
          ]
        ]
      ]

  readable_file_good : 0 < length bs → bad_file (readable_file bs) ≡ none
  unfolding bad_file
  readable_file_good pos = ground arith

  put_file_atomic-put_with_jump_retry :
      (c : Conn) (wanted : ℕ)
      → 0 < length bs
      → leb (length bs) max_atomic_payload_size ≡ true
      → put_file_atomic hash put c (readable_file bs) wanted
        ≡ put_with_jump_retry hash put c bs wanted
  unfolding put_file_atomic
  put_file_atomic-put_with_jump_retry c wanted pos small =
      let fits : ltb max_atomic_payload_size (length bs) ≡ false = ground (arith, small) in
      rw (readable_file_good pos, fits, put_file_atomic) refl

  -- For a readable file that is not empty, of any size, uploading the file leads to the same
  -- requests and the same answer as uploading its bytes, but for the flag that the object was
  -- there.
  pub put_file_with_jump_retry-place :
      (c : Conn) (wanted : ℕ)
      → 0 < length bs
      → place_of (put_file_with_jump_retry hash put c (readable_file bs) wanted)
        ≡ place_of (put_with_jump_retry hash put c bs wanted)
  unfolding put_file_with_jump_retry put_large_file
  put_file_with_jump_retry-place c wanted pos =
      elim (Bool-cases (leb (length bs) max_atomic_payload_size)) [
        | inl small ↦
            rw (readable_file_good pos, small, put_file_with_jump_retry)
              (ap place_of (put_file_atomic-put_with_jump_retry c wanted pos small))
        | inr large ↦
            rw (readable_file_good pos, large, put_file_with_jump_retry)
              (put_hashed_file-place c wanted)
      ]
