-- ===== src/Client.antt =====
-- pkg/client/client.go: the errors that the client tells apart, and Put. The generated gRPC client is
-- the interface `Connection`; a Failure is a status of the server or an error of the client's own.
pub mod Upload
pub mod Jump
pub mod Download
pub mod Verify
pub mod Chunker
pub mod Manifest
pub mod Chunked
mod Tests
use Prim.Native.String.{String}
use text.Mathlib.Text
use bsos.Base.{
  ℕ, zero, suc, ◌+◌, ◌-◌, ◌*◌, ◌/◌, Bool, true, false, not, ◌&&◌, List, [], ◌∷◌, Option, none, some,
  length, take, drop, min, ltb, ◌==◌, if◌then◌else◌,
}
use bsos.Daemon.Stream.{Stream}
use bsos.Daemon.Server.{PutHeader, PutRequest, header, chunk}

pub data Code : Type 0 where
  already_exists not_found resource_exhausted invalid_argument : Code
  other_code : ℕ → Code

pub data Failure : Type 0 where
  answered : Code → String → Failure
  premature_eof size_mismatch : ℕ → ℕ → Failure
  read_error jump_exhausted payload_too_large : Failure
  still_not_found : ℕ → Failure
  context_done : Failure
  stat_failed is_directory empty_file open_failed rewind_failed : Failure

-- status.Code of an error that carries no status is Unknown.
unfoldable status_code : Failure → Code
status_code (answered code message) = code
status_code _ = other_code 2

pub is_conflict : Failure → Bool
unfolding status_code
is_conflict e = elim (status_code e) [ already_exists ↦ true | _ ↦ false ]

unfoldable pub is_idempotent_conflict : Failure → Bool
is_idempotent_conflict (answered already_exists message) =
    Text.◌==◌ message "fid already registered"
is_idempotent_conflict _ = false

unfoldable pub is_not_found : Failure → Bool
unfolding status_code
is_not_found e = elim (status_code e) [ not_found ↦ true | _ ↦ false ]

unfoldable is_resource_exhausted : Failure → Bool
unfolding status_code
is_resource_exhausted e = elim (status_code e) [ resource_exhausted ↦ true | _ ↦ false ]

unfoldable is_invalid_argument : Failure → Bool
unfolding status_code
is_invalid_argument e = elim (status_code e) [ invalid_argument ↦ true | _ ↦ false ]

abbrev default_chunk_size : ℕ
default_chunk_size = 1024 * 1024

abbrev pub max_atomic_payload_size : ℕ
max_atomic_payload_size = 16 * 1024 * 1024

abbrev pub max_jump_code : ℕ
max_jump_code = 255

-- WithChunkSize ignores a size that is not positive.
unfoldable with_chunk_size : ℕ → ℕ → ℕ
with_chunk_size size chunk_size = if ltb 0 size then size else chunk_size

-- The generated client's Put and the methods of its stream.
pub record Connection : Type 1 where
  pub Conn : Type 0
  pub put_stream : Conn → Conn × Option Failure
  pub send : Conn → PutRequest → Conn × Option Failure
  pub close_and_recv : Conn → Conn × Option Failure
  pub close_send : Conn → Conn

-- A round for each chunk, and one more.
abbrev pub put_rounds : ℕ → ℕ → ℕ
put_rounds chunk_size total = total / chunk_size + 1

module _ (g : Connection) where
  open g use {Conn, put_stream, send, close_and_recv, close_send}

  -- After a send that failed, the server's own answer is the error, if it gave one.
  pub stop_sending : Conn → Failure → Conn × Option Failure
  stop_sending c e =
      let closed = close_and_recv c in
      elim closed.1 [ none ↦ (closed.0, some e) | some answer ↦ (closed.0, some answer) ]

  pub send_some : Conn → List ℕ → Conn × Option Failure
  send_some c buf = if length buf == 0 then (c, none) else send c (chunk buf)

  -- The end of Put, behind its loop.
  pub finish_put : Conn → ℕ → ℕ → Conn × Option Failure
  finish_put c sent total =
      if not (sent == total)
      then (close_send c, some (size_mismatch sent total))
      else close_and_recv c

  -- A read that stayed short: the end of the source or its failure.
  pub short_source : Conn → Stream → ℕ → ℕ → Conn × Option Failure
  short_source c r sent total =
      if r.fault
      then (close_send c, some read_error)
      else if ltb sent total
      then (close_send c, some (premature_eof sent total))
      else finish_put c sent total

  module _ (chunk_size : ℕ) where
    pub put_loop : ℕ → Conn → ℕ → Stream → ℕ → Conn × Option Failure
    put_loop zero c total r sent = finish_put c sent total
    put_loop (suc rounds) c total r sent =
        let to_read : ℕ = min chunk_size (total - sent) in
        let buf : List ℕ = take to_read r.bytes in
        let sending = send_some c buf in
        elim (ltb sent total) [
          | false ↦ finish_put c sent total
          | true ↦ elim sending.1 [
            | some e ↦ stop_sending sending.0 e
            | none ↦ elim (length buf == to_read) [
              | false ↦ short_source sending.0 r (sent + length buf) total
              | true ↦
                  put_loop rounds sending.0 total (record r { bytes = drop to_read r.bytes })
                    (sent + length buf)
            ]
          ]
        ]

    -- Put behind the opening of its stream: the header and the loop.
    pub put_opened : Conn → PutHeader → Stream → Conn × Option Failure
    put_opened c h r =
        let sending = send c (header h) in
        elim sending.1 [
          | some e ↦ stop_sending sending.0 e
          | none ↦ put_loop (put_rounds chunk_size h.total_size) sending.0 h.total_size r 0
        ]

    unfoldable pub put : Conn → PutHeader → Stream → Conn × Option Failure
    put c h r =
        let opened = put_stream c in
        elim opened.1 [ some e ↦ (opened.0, some e) | none ↦ put_opened opened.0 h r ]
