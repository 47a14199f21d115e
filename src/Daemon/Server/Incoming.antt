-- ===== src/Daemon/Server/Incoming.antt =====
-- internal/daemon/server.go: stallingChunkReader, which makes a reader of a Put's messages. A stall
-- timeout or the end of the context is a Recv that fails; the clock is not modelled.
pub mod Whole
use bsos.Base.{
  ℕ, zero, suc, ◌-◌, Bool, true, false, List, [], ◌∷◌, ◌++◌, Option, none, some, length, take, drop,
  ◌==◌, if◌then◌else◌,
}
use bsos.Daemon.Server.{PutRequest, header, chunk}

pub data ReadEnd : Type 0 where
  end_of_input failed : ReadEnd

-- The rest of the last chunk, what Recv will still give, and whether it fails behind that.
pub record ChunkReader : Type 0 where
  pub buf : List ℕ
  pub incoming : List PutRequest
  pub broken : Bool

pub record Got : Type 0 where
  pub bytes : List ℕ
  pub reader : ChunkReader
  pub ended : Option ReadEnd

-- The loop of Read, which receives until there is a byte.
pub refill : List ℕ → List PutRequest → Bool → ChunkReader × Option ReadEnd
refill (b ∷ bs) ms broken = (record { buf = b ∷ bs; incoming = ms; broken = broken }, none)
refill [] [] broken = (
  record { buf = []; incoming = []; broken = broken },
  some (if broken then failed else end_of_input),
)
refill [] (header h ∷ ms) broken =
    (record { buf = []; incoming = ms; broken = broken }, some failed)
refill [] (chunk bs ∷ ms) broken = refill bs ms broken

unfoldable pub read : ℕ → ChunkReader → Got
read n r =
    let filled = refill r.buf r.incoming r.broken in
    if n == 0 then record { bytes = []; reader = r; ended = none } else elim filled.1 [
      | some e ↦ record { bytes = []; reader = filled.0; ended = some e }
      | none ↦ record {
        bytes = take n filled.0.buf;
        reader = record (filled.0) { buf = drop n filled.0.buf };
        ended = none;
      }
    ]

-- io.ReadFull: reads until n bytes are there or a Read fails. A Read that succeeds gives a byte.
pub read_full : ℕ → ℕ → ChunkReader → Got
read_full zero n r = record { bytes = []; reader = r; ended = none }
read_full (suc rounds) n r =
    let got = read n r in
    let rest = read_full rounds (n - length got.bytes) got.reader in
    if n == 0 then record { bytes = []; reader = r; ended = none } else elim got.ended [
      | some e ↦ got
      | none ↦ record { bytes = got.bytes ++ rest.bytes; reader = rest.reader; ended = rest.ended }
    ]
