-- ===== src/Client/Tests/Chunks.antt =====
-- The chunked files of the client at concrete inputs.
use bsos.Base.{
  ℕ, suc, ◌+◌, ◌≡◌, true, false, List, [], ◌∷◌, ◌++◌, map, Option, none, some, length, take, drop,
  ◌==◌, if◌then◌else◌, Result, ok, err, arith,
}
use bsos.Client.{Failure, read_error}
use bsos.Client.Chunker.{slices, chunk_of}
use bsos.Client.Manifest.{ChunkDescriptor, FileManifest, magic_header}
use bsos.Client.Chunked.{collect, no_uploads, assemble}
use bsos.Client.Chunked.Order.{Upload, result_of, arrives, all_arrived}
use bsos.Client.Chunked.Stored.{manifest_of, piece_of, assemble-manifest_of}

-- A codec in the place of the protobuf runtime: the numbers in order, and the texts by their length.
abbrev flat : List ChunkDescriptor → List ℕ
flat [] = []
flat (d ∷ ds) = d.fid ∷ d.offset ∷ d.size ∷ flat ds

abbrev unflat : List ℕ → List ChunkDescriptor
unflat (fid ∷ offset ∷ size ∷ rest) =
    record { fid = fid; offset = offset; size = size } ∷ unflat rest
unflat _ = []

abbrev numbers : FileManifest → List ℕ
numbers m =
    m.version
    ∷ m.total_size
    ∷ m.full_content_hash
    ∷ m.chunk_target_size
    ∷ length m.filename
    ∷ (m.filename ++ flat m.chunks)

abbrev marshal : FileManifest → Option (List ℕ)
marshal m = some (numbers m)

abbrev unmarshal : List ℕ → Option FileManifest
unmarshal (version ∷ total ∷ hash ∷ target ∷ n ∷ rest) = some (record {
  version = version;
  total_size = total;
  full_content_hash = hash;
  filename = take n rest;
  chunk_target_size = target;
  chunks = unflat (drop n rest);
})
unmarshal _ = none

abbrev sum_of : List ℕ → ℕ
sum_of [] = 0
sum_of (b ∷ bs) = b + sum_of bs

abbrev two_pieces : List (List ℕ)
two_pieces = (1 ∷ 2 ∷ []) ∷ (4 ∷ []) ∷ []

abbrev manifest : FileManifest
manifest = manifest_of sum_of two_pieces 7 (65 ∷ []) 16

abbrev blob : List ℕ
blob = magic_header ++ numbers manifest

abbrev first : ChunkDescriptor
first = record { fid = 3; offset = 0; size = 2 }

abbrev second : ChunkDescriptor
second = record { fid = 4; offset = 2; size = 1 }

-- The second chunk is stored first, and was there before.
abbrev backwards : List Upload
backwards = (second, true) ∷ (first, false) ∷ []

assemble-manifest_of_example :
    assemble
      (slices sum_of (map piece_of two_pieces) 0).failed
      (collect no_uploads (map result_of backwards))
      7
      (65 ∷ [])
      16
    ≡ ok manifest
unfolding slices chunk_of
assemble-manifest_of_example =
    assemble-manifest_of sum_of two_pieces backwards 7 (65 ∷ []) 16 (omega arith, (omega arith, tt))
      (omega arith) (arrives (second ∷ []) [] (arrives [] [] all_arrived))

-- A store of the manifest, under the fid 9, and of its chunks.
abbrev fetch : ℕ → ℕ → ℕ × Result Failure (List ℕ)
fetch c fid = (
  suc c,
  if fid == 9
      then ok blob
      else if fid == 3
      then ok (1 ∷ 2 ∷ [])
      else if fid == 4
      then ok (4 ∷ [])
      else err read_error,
)

abbrev long_chunk : ChunkDescriptor
long_chunk = record { fid = 3; offset = 0; size = 5 }
