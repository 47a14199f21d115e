-- ===== src/Client/Tests/Uploads.antt =====
-- The uploads of the client at concrete inputs.
use bsos.Base.{
  ℕ, suc, ◌+◌, ◌≤◌, ◌<◌, ◌≡◌, refl, ◌⊎◌, Bool-cases, inl, inr, true, false, List, [], ◌∷◌, ◌++◌,
  map, Option, none, some, take, All, ◌==◌, if◌then◌else◌, arith,
}
use bsos.Daemon.Stream.{Stream}
use bsos.Daemon.Server.{PutHeader, PutRequest, chunk}
use bsos.Daemon.Server.Incoming.Whole.{stream_of}
use bsos.Client.{Connection, Failure, answered, already_exists, is_conflict, put}
use bsos.Client.Upload.{IsPiece, upload, put-upload}
use bsos.Client.Jump.{
  reader, jumped, put_with_jump_retry, put_with_jump_retry_collision, put_file_with_jump_retry,
}
use bsos.Client.Jump.Retry.{
  attempt, Outcome, put_with_jump_retry_collision-Outcome, put_with_jump_retry_collision_lives,
}
use bsos.Client.Jump.Files.{readable_file, place_of, put_file_with_jump_retry-place}

-- A connection that keeps the messages and accepts them all.
abbrev logging : Connection
logging = record {
  Conn = List PutRequest;
  put_stream = λ c. (c, none);
  send = λ c m. (c ++ (m ∷ []), none);
  close_and_recv = λ c. (c, none);
  close_send = λ c. c;
}

abbrev three_bytes : List ℕ
three_bytes = 1 ∷ 2 ∷ 3 ∷ []

abbrev three_header : PutHeader
three_header = record { fid = 7; total_size = 3; alias_for = 0 }

put-upload_example :
    (pieces : List (List ℕ)) × (put logging 2 [] three_header (reader three_bytes)
      ≡ upload logging [] three_header pieces)
    × (stream_of (record { buf = []; incoming = map chunk pieces; broken = false })
        ≡ record { bytes = take 3 three_bytes; fault = false })
    × All (IsPiece 2) pieces
put-upload_example =
    put-upload logging 2 (omega arith) [] three_header (reader three_bytes) (omega arith)

abbrev sum_of : List ℕ → ℕ
sum_of [] = 0
sum_of (b ∷ bs) = b + sum_of bs

abbrev collision : Failure
collision = answered already_exists "extent already reserved"

-- A store whose first answer is a collision.
abbrev crowded : ℕ → PutHeader → Stream → ℕ × Option Failure
crowded c h r = (suc c, if c == 0 then some collision else none)

put_with_jump_retry_collision-Outcome_example :
    Outcome sum_of crowded three_bytes 6 0 0 3
      (put_with_jump_retry_collision sum_of crowded 0 three_bytes 6 3)
put_with_jump_retry_collision-Outcome_example =
    put_with_jump_retry_collision-Outcome sum_of crowded three_bytes 6 0 3

-- A store that always refuses the fid 7, and nothing else.
abbrev picky : ℕ → PutHeader → Stream → ℕ × Option Failure
picky c h r = (suc c, if h.fid == 7 then some collision else none)

picky_answers :
    (code c : ℕ)
    → ((attempt sum_of picky three_bytes 6 c code).1 ≡ none)
      ⊎ ((e : Failure) × ((attempt sum_of picky three_bytes 6 c code).1 ≡ some e)
          × (is_conflict e ≡ true))
unfolding is_conflict
picky_answers code c = elim (Bool-cases (sum_of (three_bytes ++ (code ∷ [])) == 7)) [
  | inl hit ↦ inr (collision, rw hit refl, refl)
  | inr miss ↦ inl (rw miss refl)
]

put_with_jump_retry_collision_lives_example :
    (j : ℕ) × (0 < j)
    × (j ≤ 2)
    × ((put_with_jump_retry_collision sum_of picky 0 three_bytes 6 3).1
        ≡ jumped sum_of three_bytes 6 j)
    × ((put_with_jump_retry_collision sum_of picky 0 three_bytes 6 3).2 ≡ none)
put_with_jump_retry_collision_lives_example =
    put_with_jump_retry_collision_lives sum_of picky three_bytes 6 2 0 3 (omega arith) (omega arith)
      (λ code lt c. picky_answers code c) (λ c. refl)

put_file_with_jump_retry-place_example :
    place_of sum_of crowded three_bytes
      (put_file_with_jump_retry sum_of crowded 0 (readable_file three_bytes) 0)
    ≡ place_of sum_of crowded three_bytes (put_with_jump_retry sum_of crowded 0 three_bytes 0)
put_file_with_jump_retry-place_example =
    put_file_with_jump_retry-place sum_of crowded three_bytes 0 0 (omega arith)
