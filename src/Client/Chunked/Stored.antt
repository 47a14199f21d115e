-- ===== src/Client/Chunked/Stored.antt =====
-- pkg/client/cdc.go: GetCDC of what PutCDC committed.
use bsos.Base.{
  ℕ, ◌+◌, ◌<◌, ◌≡◌, refl, ◌∙◌, false, List, [], ◌∷◌, map, length, length-append, All, add64,
  u64_mod, ◌==◌, ok, arith,
}
use bsos.Client.Upload.{joined}
use bsos.Client.Chunker.{Chunk, Piece, slices, chunk_of}
use bsos.Client.Manifest.{ChunkDescriptor, FileManifest, current_version}
use bsos.Client.Chunked.{no_uploads, collect, assemble, total_size_of}
use bsos.Client.Chunked.Order.{
  Arrival, IsGrowing, Upload, result_of, collect_uploaded, sort_by_offset-Arrival,
}
use bsos.Client.Chunked.Range.{descriptors}

abbrev AreFull : List (List ℕ) → Type 0
AreFull pieces = All (λ (bs : List ℕ). 0 < length bs) pieces

abbrev descriptor_of : Chunk → ChunkDescriptor
descriptor_of ch = record { fid = ch.fid; offset = ch.offset; size = ch.size }

abbrev pub piece_of : List ℕ → Piece
piece_of bs = record { buf = bs; broken = false }

module _ (hash : List ℕ → ℕ) where
  -- The chunks that Next gives for the inner chunker's pieces.
  slices-descriptors :
      (pieces : List (List ℕ)) (offset : ℕ)
      → AreFull pieces
      → offset + length (joined pieces) < u64_mod
      → (map descriptor_of (slices hash (map piece_of pieces) offset).chunks
          ≡ descriptors hash offset pieces)
        × ((slices hash (map piece_of pieces) offset).failed ≡ false)
  unfolding slices chunk_of
  slices-descriptors [] offset full fits = (refl, refl)
  slices-descriptors (bs ∷ bss) offset full fits =
      let room : offset + length bs + length (joined bss) < u64_mod =
        omega (arith, fits, length-append bs (joined bss)) in
      let next : add64 offset (length bs) ≡ offset + length bs = omega (arith, room) in
      let some_bytes : (length bs == 0) ≡ false = ground (arith, full.0) in
      let (eq, fine) = slices-descriptors bss (offset + length bs) full.1 room in
      rw (some_bytes, next, eq, fine, slices) (refl, refl)

  descriptors_above :
      (pieces : List (List ℕ)) (low offset : ℕ)
      → low < offset
      → All (λ e. low < e.offset) (descriptors hash offset pieces)
  descriptors_above [] low offset h = tt
  descriptors_above (bs ∷ bss) low offset h =
      (h, descriptors_above bss low (offset + length bs) (omega (arith, h)))

  descriptors-IsGrowing :
      (pieces : List (List ℕ)) (offset : ℕ)
      → AreFull pieces
      → IsGrowing (descriptors hash offset pieces)
  descriptors-IsGrowing [] offset full = tt
  descriptors-IsGrowing (bs ∷ bss) offset full =
      let pos : 0 < length bs = full.0 in
      (
        descriptors_above bss offset (offset + length bs) (omega (arith, pos)),
        descriptors-IsGrowing bss (offset + length bs) full.1,
      )

  total_size_of-descriptors :
      (pieces : List (List ℕ)) (acc offset : ℕ)
      → acc + length (joined pieces) < u64_mod
      → total_size_of acc (descriptors hash offset pieces) ≡ acc + length (joined pieces)
  unfolding total_size_of
  total_size_of-descriptors [] acc offset fits = omega arith
  total_size_of-descriptors (bs ∷ bss) acc offset fits =
      let room : acc + length bs + length (joined bss) < u64_mod =
        omega (arith, fits, length-append bs (joined bss)) in
      let next : add64 acc (length bs) ≡ acc + length bs = omega (arith, room) in
      rw (total_size_of, next)
        (total_size_of-descriptors bss (acc + length bs) (offset + length bs) room
          ∙ omega (arith, length-append bs (joined bss)))

  -- The manifest of pieces, as PutCDC fills it in.
  abbrev pub manifest_of : List (List ℕ) → ℕ → List ℕ → ℕ → FileManifest
  manifest_of pieces full_hash filename target_size = record {
    version = current_version;
    total_size = length (joined pieces);
    full_content_hash = full_hash;
    filename = filename;
    chunk_target_size = target_size;
    chunks = descriptors hash 0 pieces;
  }

  -- Where the inner chunker gives pieces that are not empty and have less than 2 ^ 64 bytes
  -- together, and every upload succeeds, the manifest lists the pieces in the order of the file,
  -- with their hashes, offsets and sizes and their total size, in whatever order the results
  -- arrive.
  pub assemble-manifest_of :
      (pieces : List (List ℕ)) (us : List Upload) (full_hash : ℕ) (filename : List ℕ)
      (target_size : ℕ)
      → AreFull pieces
      → length (joined pieces) < u64_mod
      → Arrival (map descriptor_of (slices hash (map piece_of pieces) 0).chunks) (map (λ u. u.0) us)
      → assemble
          (slices hash (map piece_of pieces) 0).failed
          (collect no_uploads (map result_of us))
          full_hash
          filename
          target_size
        ≡ ok (manifest_of pieces full_hash filename target_size)
  unfolding assemble
  assemble-manifest_of pieces us full_hash filename target_size full fits arrived =
      let (eq, fine) = slices-descriptors pieces 0 full (omega (arith, fits)) in
      let (results, count, no_err) = collect_uploaded us no_uploads in
      let sorted =
        sort_by_offset-Arrival (rw eq at arrived) (descriptors-IsGrowing pieces 0 full) in
      let total : total_size_of 0 (descriptors hash 0 pieces) ≡ length (joined pieces) =
        omega (arith, total_size_of-descriptors pieces 0 0 (omega (arith, fits))) in
      rw (assemble, fine, no_err, results, sorted, total) refl
