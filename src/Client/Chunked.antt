-- ===== src/Client/Chunked.antt =====
-- pkg/client/cdc.go: PutCDC and GetCDC. The workers run at the same time; what the collector sees
-- of them is the order in which their results arrive, a list.
pub mod Order
pub mod Range
pub mod Stored
use bsos.Base.{
  ℕ, zero, suc, ◌+◌, ◌-◌, Bool, true, false, not, ◌&&◌, ◌||◌, List, [], ◌∷◌, ◌++◌, Option, none,
  some, length, take, drop, ltb, leb, ◌==◌, add64, if◌then◌else◌, Result, ok, err,
}
use bsos.Client.{Failure}
use bsos.Client.Download.{Reads, Writer, get, get_bytes}
use bsos.Client.Chunker.{Chunk}
use bsos.Client.Manifest.{
  ChunkDescriptor, FileManifest, ManifestError, current_version, is_manifest,
}

pub data ChunkResult : Type 0 where
  uploaded : ChunkDescriptor → Bool → ChunkResult
  failed_upload : Failure → ChunkResult

pub record UploadTally : Type 0 where
  pub results : List ChunkDescriptor
  pub dedup_count : ℕ
  pub upload_count : ℕ
  pub first_err : Option Failure

abbrev pub no_uploads : UploadTally
no_uploads = record { results = []; dedup_count = 0; upload_count = 0; first_err = none }

pub collect_result : UploadTally → ChunkResult → UploadTally
collect_result s (failed_upload e) = record s {
  first_err = elim s.first_err [ none ↦ some e | some first ↦ some first ];
}
collect_result s (uploaded desc dup) = record s {
  results = s.results ++ (desc ∷ []);
  dedup_count = if dup then suc s.dedup_count else s.dedup_count;
  upload_count = if dup then s.upload_count else suc s.upload_count;
}

-- The collector's loop over the results as they arrive.
pub collect : UploadTally → List ChunkResult → UploadTally
collect s [] = s
collect s (r ∷ rs) = collect (collect_result s r) rs

pub insert_by_offset : ChunkDescriptor → List ChunkDescriptor → List ChunkDescriptor
insert_by_offset d [] = d ∷ []
insert_by_offset d (x ∷ xs) =
    let rest = insert_by_offset d xs in if leb d.offset x.offset then d ∷ x ∷ xs else x ∷ rest

pub sort_by_offset : List ChunkDescriptor → List ChunkDescriptor
sort_by_offset [] = []
sort_by_offset (d ∷ ds) = insert_by_offset d (sort_by_offset ds)

pub total_size_of : ℕ → List ChunkDescriptor → ℕ
total_size_of acc [] = acc
total_size_of acc (d ∷ ds) = total_size_of (add64 acc d.size) ds

pub data CdcError : Type 0 where
  slice_error : CdcError
  upload_error fetch_error write_error : Failure → CdcError
  manifest_error : ManifestError → CdcError

-- PutCDC behind its collector: the manifest to commit.
pub assemble : Bool → UploadTally → ℕ → List ℕ → ℕ → Result CdcError FileManifest
assemble slice_failed s full_hash filename target_size =
    let sorted = sort_by_offset s.results in
    if slice_failed then err slice_error else elim s.first_err [
      | some e ↦ err (upload_error e)
      | none ↦ ok (record {
        version = current_version;
        total_size = total_size_of 0 sorted;
        full_content_hash = full_hash;
        filename = filename;
        chunk_target_size = target_size;
        chunks = sorted;
      })
    ]

-- The range [start, end) of a GetCDC, or none where it is empty.
unfoldable pub cdc_range : ℕ → Option (ℕ × ℕ) → Option (ℕ × ℕ)
cdc_range total none = some (0, total)
cdc_range total (some (start, end)) =
    let end' : ℕ = if end == 0 || ltb total end then total else end in
    if leb end' start then none else some (start, end')

-- The window of the range inside a chunk.
pub window : ChunkDescriptor → ℕ → ℕ → ℕ × ℕ
window ch start end = (
  if ltb ch.offset start then start - ch.offset else 0,
  if ltb end (add64 ch.offset ch.size) then end - ch.offset else ch.size,
)

pub outside : ChunkDescriptor → ℕ → ℕ → Bool
outside ch start end = leb (add64 ch.offset ch.size) start || leb end ch.offset

module _ {Conn : Type 0} (fetch : Conn → ℕ → Conn × Result Failure (List ℕ)) (w : Writer) where
  -- The bytes of a chunk that the range takes, if the chunk is long enough.
  pub write_window : ChunkDescriptor → ℕ → ℕ → List ℕ → w.Out → w.Out × Option Failure
  write_window ch start end bs out =
      let (a, b) = window ch start end in
      let wrote = w.write out (take (b - a) (drop a bs)) in
      if ltb a b && leb b (length bs) then (wrote.0, wrote.2) else (out, none)

  pub get_cdc_loop : List ChunkDescriptor → ℕ → ℕ → Conn → w.Out → Conn × w.Out × Option CdcError
  get_cdc_loop [] start end c out = (c, out, none)
  get_cdc_loop (ch ∷ chs) start end c out =
      let got = fetch c ch.fid in
      elim (outside ch start end) [
        | true ↦ get_cdc_loop chs start end c out
        | false ↦ elim got.1 [
          | err e ↦ (got.0, out, some (fetch_error e))
          | ok bs ↦
              let wrote = write_window ch start end bs out in
              elim wrote.1 [
                | some e ↦ (got.0, wrote.0, some (write_error e))
                | none ↦ get_cdc_loop chs start end got.0 wrote.0
              ]
        ]
      ]

  module _ (decode : List ℕ → Result ManifestError FileManifest) where
    pub inspect_manifest : Conn → ℕ → Conn × Result CdcError FileManifest
    inspect_manifest c fid =
        let got = fetch c fid in
        (
          got.0,
          elim got.1 [
            | err e ↦ err (fetch_error e)
            | ok bs ↦ elim (decode bs) [ err e ↦ err (manifest_error e) | ok m ↦ ok m ]
          ],
        )

    pub get_cdc : Conn → ℕ → Option (ℕ × ℕ) → w.Out → Conn × w.Out × Option CdcError
    get_cdc c manifest_fid range out =
        let inspected = inspect_manifest c manifest_fid in
        elim inspected.1 [
          | err e ↦ (inspected.0, out, some e)
          | ok m ↦ elim (cdc_range m.total_size range) [
            | none ↦ (inspected.0, out, none)
            | some (start, end) ↦ get_cdc_loop m.chunks start end inspected.0 out
          ]
        ]

-- GetAuto: a chunked file where the object starts like a manifest, and the object itself elsewhere.
unfoldable get_auto :
    (g : Reads) (w : Writer)
    → (List ℕ → Result ManifestError FileManifest)
    → g.Conn
    → ℕ
    → Option (ℕ × ℕ)
    → w.Out
    → g.Conn × w.Out × Option CdcError
get_auto g w decode c fid range out =
    let probe = get_bytes g c fid (some (0, 5)) in
    let raw = get w g probe.0 fid range out in
    let chunked = get_cdc (λ c' f. get_bytes g c' f none) w decode probe.0 fid range out in
    let plain : g.Conn × w.Out × Option CdcError =
      (raw.0, raw.1.out, elim raw.1.failure [ none ↦ none | some e ↦ some (fetch_error e) ]) in
    elim probe.1 [ err e ↦ plain | ok bs ↦ if is_manifest bs then chunked else plain ]
