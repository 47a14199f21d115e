-- ===== src/Daemon/Server.antt =====
-- internal/daemon/server.go: Put, Get and the start of the server. A request runs alone here, in the
-- order of the handler's steps; the disks' answers arrive in the order of the disks.
pub mod Put
pub mod Ranges
pub mod Incoming
use bsos.Base.{
  ℕ, zero, suc, ◌+◌, ◌-◌, ◌*◌, Bool, true, false, not, ◌&&◌, ◌||◌, List, [], ◌∷◌, ◌++◌, map, Option,
  none, some, some_of, min, ltb, leb, ◌==◌, if◌then◌else◌, is_some, Result, ok, err, ◌>>=◌, ◌>>◌,
  fail_if,
}
use bsos.Base.Maps.{Map, lookup}
use bsos.Daemon.Errors.{Error, conflict}
use bsos.Daemon.Replay.{ObjectRef}
use bsos.Daemon.Gate.{PoolGate, reserve, release}
use bsos.Daemon.Stream.{Stream}
use bsos.Daemon.Stream.Context.{write_from_context}
use bsos.Daemon.Pool.{Disk, select_disk_for_write, confirmed_anywhere, any_loop}
use bsos.Daemon.Device.{
  DeviceFile, DeviceState, PreparedWrite, prepare_write, commit, abort, is_confirmed, lookup_ref,
  read_range,
}

-- The status codes of the answers, with their cause.
pub data Status : Type 0 where
  invalid_argument already_exists canceled : Status
  resource_exhausted internal : Error → Status

abbrev is_conflict : Error → Bool
is_conflict conflict = true
is_conflict _ = false

pub record PutHeader : Type 0 where
  pub fid : ℕ
  pub total_size : ℕ
  pub alias_for : ℕ

-- The messages of a Put's stream.
pub data PutRequest : Type 0 where
  header : PutHeader → PutRequest
  chunk : List ℕ → PutRequest

pub record Server (F : Type 0) : Type 0 where
  pub disks : List (Disk F)
  pub gate : PoolGate
  pub max_put : ℕ
  pub small_file_bytes : ℕ

unfoldable pub bad_header : ℕ → PutHeader → Bool
bad_header max_put h =
    h.total_size == 0
    || (not (h.alias_for == 0) && (h.alias_for == h.fid || ltb h.total_size 2))
    || (ltb 0 max_put && ltb max_put h.total_size)

-- Whether the disk's turn came, and whether the context has ended when the stream is on the disk.
pub record PutContext : Type 0 where
  pub acquired : Bool
  pub canceled_late : Bool

module _ (d : DeviceFile) where
  open d use {File}

  -- The steps behind PrepareWrite: the stream, the test of the context, the commit.
  unfoldable pub put_prepared :
      DeviceState File → PreparedWrite → ℕ → Stream → PutContext → DeviceState File × Option Status
  put_prepared s pw alias_for r ctx =
      let wrote = write_from_context d s pw r ctx.acquired in
      let s' : DeviceState File = record s { file = wrote.0 } in
      let committed = commit d s' pw alias_for in
      elim wrote.1 [
        | some e ↦ (abort s' pw, some (internal e))
        | none ↦ elim ctx.canceled_late [
          | true ↦ (abort s' pw, some canceled)
          | false ↦ elim committed.1 [
            | some e ↦ (abort committed.0 pw, some (internal e))
            | none ↦ (committed.0, none)
          ]
        ]
      ]

  -- A Put on the disk that was chosen.
  unfoldable pub put_on_disk :
      DeviceState File → PutHeader → Stream → PutContext → DeviceState File × Option Status
  put_on_disk s h r ctx = elim (prepare_write s h.fid h.total_size) [
    | err e ↦ (s, some (if is_conflict e then already_exists else internal e))
    | ok (s', pw) ↦ put_prepared s' pw h.alias_for r ctx
  ]

  -- The disk of an index, with the new state of that disk put back.
  unfoldable put_at :
      ℕ → List (Disk File) → PutHeader → Stream → PutContext → List (Disk File) × Option Status
  put_at n [] h r ctx = ([], none)
  put_at zero (k ∷ ks) h r ctx =
      let done = put_on_disk k.state h r ctx in ((record k { state = done.0 }) ∷ ks, done.1)
  put_at (suc n) (k ∷ ks) h r ctx = let rest = put_at n ks h r ctx in (k ∷ rest.0, rest.1)

  abbrev pub confirmed_by : List (Disk File) → ℕ → Result Error Bool
  confirmed_by ks fid = confirmed_anywhere (map (λ k. is_confirmed k.state fid) ks)

  module _ (hash : ℕ → ℕ → ℕ) (wanted : ℕ) where
    -- The deferred release runs on every path behind the reservation.
    pub put : Server File → PutHeader → Stream → PutContext → Server File × Option Status
    put s h r ctx = elim (bad_header s.max_put h) [
      | true ↦ (s, some invalid_argument)
      | false ↦ elim (reserve s.gate h.fid h.alias_for (confirmed_by s.disks)) [
        | err e ↦ (s, some (if is_conflict e then already_exists else internal e))
        | ok g ↦ elim (select_disk_for_write hash wanted s.small_file_bytes h.total_size s.disks) [
          | err e ↦ (record s { gate = release g h.fid h.alias_for }, some (resource_exhausted e))
          | ok i ↦
              let done = put_at i s.disks h r ctx in
              (record s { disks = done.0; gate = release g h.fid h.alias_for }, done.1)
        ]
      ]
    ]

-- The byte range of a Get: an end of 0 or behind the object is the object's end.
pub clamp_range : ℕ → Option (ℕ × ℕ) → Result Status (ℕ × ℕ)
clamp_range size none = ok (0, size)
clamp_range size (some (start, end)) =
    let end' : ℕ = if end == 0 || ltb size end then size else end in
    if ltb end' start then err invalid_argument else ok (start, end')

abbrev pub message_bytes : ℕ
message_bytes = 1024 * 1024

-- The messages of a Get, each with its range.
pub send_loop : ℕ → (ℕ → ℕ → Result Error (List ℕ)) → ℕ → ℕ → Result Status (List (ℕ × ℕ × List ℕ))
send_loop zero read pos end = ok []
send_loop (suc rounds) read pos end =
    let next : ℕ = min (pos + message_bytes) end in
    elim (read pos next) [
      | err e ↦ err (internal e)
      | ok data' ↦ elim (next == end) [
        | true ↦ ok ((pos, next, data') ∷ [])
        | false ↦ (send_loop rounds read next end >>= λ later. ok ((pos, next, data') ∷ later))
      ]
    ]

-- The registrations of a disk that another disk has too.
unfoldable shares_fid : Map ObjectRef → Map ObjectRef → Bool
shares_fid [] previous = false
shares_fid ((fid, ref) ∷ refs) previous =
    if is_some (lookup fid previous) then true else shares_fid refs previous

-- The tests of NewServer on each disk that it opens, against those before it.
unfoldable clashes : {F : Type 0} → DeviceState F → List (DeviceState F) → Bool
clashes disk [] = false
clashes disk (previous ∷ ps) =
    if previous.disk_id == disk.disk_id
    then true
    else if shares_fid disk.confirmed previous.confirmed
    then true
    else clashes disk ps

unfoldable open_disks : {F : Type 0} → List (DeviceState F) → List (DeviceState F) → Bool
open_disks opened [] = true
open_disks opened (disk ∷ ds) =
    if clashes disk opened then false else open_disks (opened ++ (disk ∷ [])) ds
