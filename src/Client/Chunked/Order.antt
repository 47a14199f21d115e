-- ===== src/Client/Chunked/Order.antt =====
-- pkg/client/cdc.go: the collector and the sort of PutCDC, in any order of arrival.
use bsos.Base.{
  ◌+◌, ◌<◌, ◌≡◌, refl, sym, ap, ◌∙◌, Bool, true, false, List, [], ◌∷◌, ◌++◌, append_nil,
  append_assoc, map, length, All, Bool-cases, inl, inr, leb, arith,
}
use bsos.Client.Manifest.{ChunkDescriptor}
use bsos.Client.Chunked.{
  ChunkResult, uploaded, UploadTally, collect_result, collect, insert_by_offset, sort_by_offset,
}

-- The same items in another order.
pub data Arrival {ℓ} {A : Type ℓ} : List A → List A → Type ℓ where
  all_arrived : Arrival [] []
  arrives :
      {x : A} {xs : List A} (before after : List A)
      → Arrival xs (before ++ after)
      → Arrival (x ∷ xs) (before ++ (x ∷ after))

-- Offsets that grow from one descriptor to all later ones.
abbrev pub IsGrowing : List ChunkDescriptor → Type 0
IsGrowing [] = Unit {0}
IsGrowing (d ∷ ds) = All (λ e. d.offset < e.offset) ds × IsGrowing ds

module _ {ℓ κ} {A : Type ℓ} (P : A → Type κ) where
  All-insert :
      (x : A) (before after : List A)
      → P x
      → All P (before ++ after)
      → All P (before ++ (x ∷ after))
  All-insert x [] after p h = (p, h)
  All-insert x (y ∷ before) after p h = (h.0, All-insert x before after p h.1)

  All-Arrival : {xs ys : List A} → Arrival xs ys → All P xs → All P ys
  All-Arrival all_arrived h = h
  All-Arrival (arrives {x} {xs} before after later) h =
      All-insert x before after h.0 (All-Arrival later h.1)

module _ (P : ChunkDescriptor → Type 0) where
  All-insert_by_offset :
      (d : ChunkDescriptor) (ds : List ChunkDescriptor)
      → P d
      → All P ds
      → All P (insert_by_offset d ds)
  unfolding insert_by_offset
  All-insert_by_offset d [] p h = (p, tt)
  All-insert_by_offset d (x ∷ xs) p h = elim (Bool-cases (leb d.offset x.offset)) [
    | inl first ↦ rw (first, insert_by_offset) (p, h)
    | inr later ↦ rw (later, insert_by_offset) (h.0, All-insert_by_offset d xs p h.1)
  ]

  All-sort_by_offset : (ds : List ChunkDescriptor) → All P ds → All P (sort_by_offset ds)
  unfolding sort_by_offset
  All-sort_by_offset [] h = h
  All-sort_by_offset (d ∷ ds) h =
      All-insert_by_offset d (sort_by_offset ds) h.0 (All-sort_by_offset ds h.1)

insert_front :
    (d : ChunkDescriptor) (ds : List ChunkDescriptor)
    → All (λ e. d.offset < e.offset) ds
    → insert_by_offset d ds ≡ d ∷ ds
unfolding insert_by_offset
insert_front d [] h = refl
insert_front d (x ∷ xs) h =
    let first : leb d.offset x.offset ≡ true = ground (arith, h.0) in
    rw (first, insert_by_offset) refl

-- The least offset comes first, wherever it arrived.
sort_least :
    (d : ChunkDescriptor) (before after : List ChunkDescriptor)
    → All (λ e. d.offset < e.offset) (before ++ after)
    → sort_by_offset (before ++ (d ∷ after)) ≡ d ∷ sort_by_offset (before ++ after)
unfolding sort_by_offset insert_by_offset
sort_least d [] after h =
    insert_front d (sort_by_offset after) (All-sort_by_offset (λ e. d.offset < e.offset) after h)
sort_least d (x ∷ before) after h =
    let later : leb x.offset d.offset ≡ false = ground (arith, h.0) in
    rw (sort_least d before after h.1, later, insert_by_offset) refl

pub sort_by_offset-Arrival :
    {ds es : List ChunkDescriptor} → Arrival ds es → IsGrowing ds → sort_by_offset es ≡ ds
unfolding sort_by_offset
sort_by_offset-Arrival all_arrived h = refl
sort_by_offset-Arrival (arrives {x} {xs} before after later) h =
    sort_least x before after (All-Arrival (λ e. x.offset < e.offset) later h.0)
    ∙ ap (x ∷◌) (sort_by_offset-Arrival later h.1)

-- A chunk that was uploaded, and whether it was there before.
abbrev pub Upload : Type 0
Upload = ChunkDescriptor × Bool

abbrev pub result_of : Upload → ChunkResult
result_of (d, dup) = uploaded d dup

-- Where every upload succeeds, the collector has all descriptors, in the order of their arrival, and
-- counts each once.
pub collect_uploaded :
    (us : List Upload) (s : UploadTally)
    → ((collect s (map result_of us)).results ≡ s.results ++ map (λ u. u.0) us)
      × ((collect s (map result_of us)).dedup_count + (collect s (map result_of us)).upload_count
          ≡ s.dedup_count + s.upload_count + length us)
      × ((collect s (map result_of us)).first_err ≡ s.first_err)
unfolding collect collect_result
collect_uploaded [] s = (sym (append_nil s.results), omega arith, refl)
collect_uploaded ((d, true) ∷ us) s =
    let (eq, count, fine) = collect_uploaded us (collect_result s (uploaded d true)) in
    (eq ∙ append_assoc s.results (d ∷ []) _, omega (arith, count), fine)
collect_uploaded ((d, false) ∷ us) s =
    let (eq, count, fine) = collect_uploaded us (collect_result s (uploaded d false)) in
    (eq ∙ append_assoc s.results (d ∷ []) _, omega (arith, count), fine)
