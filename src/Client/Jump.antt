-- ===== src/Client/Jump.antt =====
-- pkg/client/client.go: PutBytes, PutWithJumpRetry, PutAtomic and PutFileWithJumpRetry. `hash` is
-- xxh3, and `put` the client's Put on a connection.
pub mod Retry
pub mod Files
use bsos.Base.{
  ℕ, zero, suc, ◌+◌, ◌-◌, Bool, true, false, List, [], ◌∷◌, ◌++◌, Option, none, some, length, min,
  ltb, ◌==◌, if◌then◌else◌, not, leb,
}
use bsos.Daemon.Stream.{Stream}
use bsos.Daemon.Server.{PutHeader}
use bsos.Client.{
  Failure, jump_exhausted, payload_too_large, stat_failed, is_directory, empty_file, open_failed,
  rewind_failed, read_error, is_conflict, is_idempotent_conflict, max_jump_code,
  max_atomic_payload_size,
}

pub record JumpResult : Type 0 where
  pub fid : ℕ
  pub target_fid : ℕ
  pub jumps_taken : ℕ
  pub is_duplicate : Bool

-- The number of jump codes to try: the option, where it is given and positive, up to 255.
unfoldable pub max_jumps_of : ℕ → ℕ
max_jumps_of wanted = if ltb 0 wanted then min wanted max_jump_code else max_jump_code

-- What the file system says of a path: os.Stat, whether Open and Seek succeed, and what each reading
-- from the start gives.
pub record LocalFile : Type 0 where
  pub missing : Bool
  pub directory : Bool
  pub size : ℕ
  pub openable : Bool
  pub rewindable : Bool
  pub content : Stream

abbrev pub reader : List ℕ → Stream
reader bs = record { bytes = bs; fault = false }

-- The content with its jump code behind it.
abbrev pub jump_data : List ℕ → ℕ → List ℕ
jump_data bs jump_code = bs ++ (jump_code ∷ [])

-- The answer for a content that was stored, or was there, under its own fid.
abbrev in_place : ℕ → Bool → JumpResult
in_place fid duplicate = record {
  fid = fid;
  target_fid = fid;
  jumps_taken = 0;
  is_duplicate = duplicate;
}

abbrev failed_at : ℕ → JumpResult
failed_at fid = record { fid = fid; target_fid = 0; jumps_taken = 0; is_duplicate = false }

abbrev no_result : JumpResult
no_result = failed_at 0

-- What os.Stat refuses, before the file is read.
pub bad_file : LocalFile → Option Failure
bad_file file =
    if file.missing
    then some stat_failed
    else if file.directory
    then some is_directory
    else if file.size == 0
    then some empty_file
    else none

abbrev unreadable : LocalFile → Bool
unreadable file = if file.openable then file.content.fault else true

-- The reader over the file and then the jump code.
abbrev with_code : LocalFile → ℕ → Stream
with_code file jump_code = reader (jump_data file.content.bytes jump_code)

abbrev pub exhausted : ℕ → ℕ → JumpResult
exhausted fid max_jumps = record {
  fid = fid;
  target_fid = 0;
  jumps_taken = max_jumps;
  is_duplicate = false;
}

module _ (hash : List ℕ → ℕ) where
  abbrev pub direct_header : List ℕ → PutHeader
  direct_header bs = record { fid = hash bs; total_size = length bs; alias_for = 0 }

  abbrev pub jump_header : List ℕ → ℕ → ℕ → PutHeader
  jump_header bs fid jump_code = record {
    fid = hash (jump_data bs jump_code);
    total_size = length bs + 1;
    alias_for = fid;
  }

  abbrev pub jumped : List ℕ → ℕ → ℕ → JumpResult
  jumped bs fid jump_code = record {
    fid = fid;
    target_fid = hash (jump_data bs jump_code);
    jumps_taken = jump_code;
    is_duplicate = false;
  }

  abbrev file_jump_header : LocalFile → ℕ → ℕ → PutHeader
  file_jump_header file fid jump_code = record {
    fid = hash (jump_data file.content.bytes jump_code);
    total_size = file.size + 1;
    alias_for = fid;
  }

module _ (hash : List ℕ → ℕ) {Conn : Type 0}
    (put : Conn → PutHeader → Stream → Conn × Option Failure) where
  unfoldable put_bytes : Conn → List ℕ → Conn × ℕ × Option Failure
  put_bytes c bs = let done = put c (direct_header hash bs) (reader bs) in (done.0, hash bs, done.1)

  unfoldable put_file : Conn → LocalFile → Conn × ℕ × Option Failure
  put_file c file =
      let fid = hash file.content.bytes in
      let done = put c (record { fid = fid; total_size = file.size; alias_for = 0 }) file.content in
      if not file.openable
      then (c, 0, some open_failed)
      else if file.missing
      then (c, 0, some stat_failed)
      else if file.directory
      then (c, 0, some is_directory)
      else if file.size == 0
      then (c, 0, some empty_file)
      else if file.content.fault
      then (c, 0, some read_error)
      else if not file.rewindable
      then (c, 0, some rewind_failed)
      else (done.0, fid, done.1)

  -- The attempts with the codes from `jump_code` on, `left` of them.
  pub jump_loop : ℕ → Conn → List ℕ → ℕ → ℕ → ℕ → Conn × JumpResult × Option Failure
  jump_loop zero c bs fid jump_code max_jumps = (c, exhausted fid max_jumps, some jump_exhausted)
  jump_loop (suc left) c bs fid jump_code max_jumps =
      let done = put c (jump_header hash bs fid jump_code) (reader (jump_data bs jump_code)) in
      let result : JumpResult = jumped hash bs fid jump_code in
      elim done.1 [
        | none ↦ (done.0, result, none)
        | some e ↦ elim (is_conflict e) [
          | false ↦ (done.0, result, some e)
          | true ↦ jump_loop left done.0 bs fid (suc jump_code) max_jumps
        ]
      ]

  pub put_with_jump_retry_collision : Conn → List ℕ → ℕ → ℕ → Conn × JumpResult × Option Failure
  put_with_jump_retry_collision c bs fid max_jumps = jump_loop max_jumps c bs fid 1 max_jumps

  pub put_with_jump_retry : Conn → List ℕ → ℕ → Conn × JumpResult × Option Failure
  put_with_jump_retry c bs wanted =
      let fid = hash bs in
      let done = put c (direct_header hash bs) (reader bs) in
      elim done.1 [
        | none ↦ (done.0, in_place fid false, none)
        | some e ↦ elim (is_conflict e) [
          | false ↦ (done.0, failed_at fid, some e)
          | true ↦ elim (is_idempotent_conflict e) [
            | true ↦ (done.0, in_place fid true, none)
            | false ↦ put_with_jump_retry_collision done.0 bs fid (max_jumps_of wanted)
          ]
        ]
      ]

  unfoldable put_atomic : Conn → List ℕ → ℕ → Conn × JumpResult × Option Failure
  put_atomic c bs wanted =
      if ltb max_atomic_payload_size (length bs)
      then (c, no_result, some payload_too_large)
      else put_with_jump_retry c bs wanted

  pub put_file_atomic : Conn → LocalFile → ℕ → Conn × JumpResult × Option Failure
  put_file_atomic c file wanted = elim (bad_file file) [
    | some e ↦ (c, no_result, some e)
    | none ↦
        if ltb max_atomic_payload_size file.size
        then (c, no_result, some payload_too_large)
        else if unreadable file
        then (c, no_result, some read_error)
        else put_with_jump_retry c file.content.bytes wanted
  ]

  pub file_jump_loop : ℕ → Conn → LocalFile → ℕ → ℕ → ℕ → Conn × JumpResult × Option Failure
  file_jump_loop zero c file fid jump_code max_jumps =
      (c, exhausted fid max_jumps, some jump_exhausted)
  file_jump_loop (suc left) c file fid jump_code max_jumps =
      let done = put c (file_jump_header hash file fid jump_code) (with_code file jump_code) in
      let result : JumpResult = jumped hash file.content.bytes fid jump_code in
      elim file.rewindable [
        | false ↦ (c, result, some rewind_failed)
        | true ↦ elim done.1 [
          | none ↦ (done.0, result, none)
          | some e ↦ elim (is_conflict e) [
            | false ↦ (done.0, result, some e)
            | true ↦ file_jump_loop left done.0 file fid (suc jump_code) max_jumps
          ]
        ]
      ]

  -- A large file, behind the pass that computes its hash.
  pub put_hashed_file : Conn → LocalFile → ℕ → ℕ → Conn × JumpResult × Option Failure
  put_hashed_file c file fid max_jumps =
      let done = put c (record { fid = fid; total_size = file.size; alias_for = 0 }) file.content in
      elim done.1 [
        | none ↦ (done.0, in_place fid false, none)
        | some e ↦ elim (is_conflict e) [
          | false ↦ (done.0, failed_at fid, some e)
          | true ↦ elim (is_idempotent_conflict e) [
            | true ↦ (done.0, in_place fid false, none)
            | false ↦ file_jump_loop max_jumps done.0 file fid 1 max_jumps
          ]
        ]
      ]

  pub put_large_file : Conn → LocalFile → ℕ → Conn × JumpResult × Option Failure
  put_large_file c file wanted =
      let fid = hash file.content.bytes in
      if not file.openable
      then (c, no_result, some open_failed)
      else if file.content.fault
      then (c, no_result, some read_error)
      else if not file.rewindable
      then (c, failed_at fid, some rewind_failed)
      else put_hashed_file c file fid (max_jumps_of wanted)

  pub put_file_with_jump_retry : Conn → LocalFile → ℕ → Conn × JumpResult × Option Failure
  put_file_with_jump_retry c file wanted = elim (bad_file file) [
    | some e ↦ (c, no_result, some e)
    | none ↦
        if leb file.size max_atomic_payload_size
        then put_file_atomic c file wanted
        else put_large_file c file wanted
  ]
