-- ===== src/Blk/Scrub/Agreement.antt =====
-- internal/blk/index_packed_scrub.go against internal/daemon/packed_table.go: the tables that the
-- scrub accepts and those that the daemon decodes.
use bsos.Base.{
  length-take, ==_refl, ℕ, zero, suc, ◌+◌, ◌-◌, ◌*◌, ◌^◌, ◌≤◌, ◌<◌, ◌≡◌, refl, sym, ap, ◌∙◌, Bool,
  true, false, not, ◌&&◌, Bool-cases, List, [], Option, some, length, take, drop, length-drop,
  take-take, drop-take, take_all, add64, mul64, ltb, ◌==◌, ◌>>=◌, Result, Result-cases, ok, err,
  inl, inr, arith,
}
use bsos.Base.Bytes.{le_value}
use bsos.Blk.Addr.{Placement, addr_for_fid}
use bsos.Blk.Entry.{slice}
use bsos.Daemon.PackedTable.{
  same_bytes, packed_table_magic, PackedTableHeader, decode_entries, decode_header, decode_body,
  decode_packed_table,
}
use bsos.Blk.Scrub.{
  ScrubError, check_header, check_entries, read_or_fail, place_table, check_blob,
  validate_packed_table_object,
}

slice-take : (a b n : ℕ) (xs : List ℕ) → a ≤ b → b ≤ n → slice a b (take n xs) ≡ slice a b xs
slice-take a b n xs ab bn =
    ap (take (b - a)) (drop-take a n a xs (omega (arith, ab, bn)))
    ∙ take-take (b - a) (n - a) (b - a) (drop a xs) (omega (arith, ab, bn))

-- Whether fallible code returns a value.
abbrev pub is_ok {ℓ} : {E : Type 0} {A : Type ℓ} → Result E A → Bool
is_ok (ok a) = true
is_ok (err e) = false

-- Over enough bytes, the two loops accept the same entries.
check_entries-decode_entries :
    (n i container_size : ℕ) (rest : List ℕ)
    → n * 24 ≤ length rest
    → is_ok (check_entries n container_size rest) ≡ is_ok (decode_entries n i container_size rest)
unfolding check_entries decode_entries
check_entries-decode_entries zero i c rest h = refl
check_entries-decode_entries (suc n) i c rest h =
    let ih =
      check_entries-decode_entries n (i + 1) c (drop 24 rest)
        (omega (arith, h, length-drop 24 rest)) in
    elim (Result-cases (decode_entries n (i + 1) c (drop 24 rest))) [
      | inl (es, w) ↦ ground (arith, w, h, rw w at ih)
      | inr (e, w) ↦ ground (arith, w, h, rw w at ih)
    ]

-- Too few bytes for the entries make the scrub's loop fail.
check_entries_short :
    (n container_size : ℕ) (rest : List ℕ)
    → length rest < n * 24
    → is_ok (check_entries n container_size rest) ≡ false
unfolding check_entries
check_entries_short zero c rest h = absurd (omega (arith, h))
check_entries_short (suc n) c rest h = elim (Bool-cases (ltb (length rest) 24)) [
  | inl short ↦ ground (arith, short)
  | inr long ↦ ground (
    arith,
    long,
    check_entries_short n c (drop 24 rest)
        (let len = length-drop 24 rest in ground (arith, h, len, long)),
  )
]

-- The scrub of a blob that is all there, on its header's numbers, against the decoder's body.
check_blob-decode_body :
    (read : ℕ → ℕ → Option (List ℕ)) (addr : ℕ) (blob : List ℕ) (h : PackedTableHeader)
    → read addr (length blob) ≡ some blob
    → 48 ≤ length blob
    → length blob ≤ 2 ^ 48
    → (length blob == add64 48 (mul64 h.entry_count 24)) ≡ true
    → is_ok (check_blob read addr (length blob) h.container_size h.entry_count)
      ≡ is_ok (decode_body h blob)
unfolding check_blob decode_body decode_entries read_or_fail
check_blob-decode_body read addr blob h whole long small same =
    let n : ℕ = h.entry_count in
    let c : ℕ = h.container_size in
    let rest : List ℕ = drop 48 blob in
    let len = length-drop 48 blob in
    let got : read_or_fail read addr (length blob) ≡ ok blob =
      ground (arith, whole, ==_refl (length blob)) in
    let fits : ltb (2 ^ 48) (length blob) ≡ false = ground (arith, small) in
    elim (Bool-cases (n == 0)) [
      | inl empty ↦
          let no_entries : n ≡ 0 = ground (arith, empty) in
          let nothing : decode_entries n 0 c rest ≡ ok [] = rw no_entries refl in
          ground (arith, empty, nothing, same)
      | inr more ↦ elim (Bool-cases (ltb (2 ^ 48) (n * 24))) [
        | inl wide ↦
            let bad = check_entries_short n c rest (ground (arith, len, small, wide)) in
            ground (arith, more, fits, got, bad, same, wide)
        | inr narrow ↦
            let agree =
              check_entries-decode_entries n 0 c rest (ground (arith, len, narrow, same)) in
            elim (Result-cases (decode_entries n 0 c rest)) [
              | inl (es, w) ↦ ground (arith, more, fits, got, same, narrow, w, rw w at agree)
              | inr (e, w) ↦ ground (arith, more, fits, got, same, narrow, w, rw w at agree)
            ]
      ]
    ]

check_header-take :
    (blob : List ℕ) (size : ℕ) → check_header (take 48 blob) size ≡ check_header blob size
unfolding check_header
check_header-take blob size =
    rw
      (
        slice-take 0 4 48 blob (omega arith) (omega arith),
        slice-take 4 6 48 blob (omega arith) (omega arith),
        slice-take 6 8 48 blob (omega arith) (omega arith),
        slice-take 24 32 48 blob (omega arith) (omega arith),
        slice-take 32 40 48 blob (omega arith) (omega arith),
      )
      refl

module _ (read : ℕ → ℕ → Option (List ℕ)) (addr : ℕ) (blob : List ℕ)
    (whole : read addr (length blob) ≡ some blob) (long : ltb (length blob) 48 ≡ false)
    (small : length blob ≤ 2 ^ 48) where
  -- The tests behind the reading of the header.
  abbrev checked_table : Result ScrubError (Unit {0})
  checked_table =
      check_header blob (length blob) >>= λ h. check_blob read addr (length blob) h.0 h.1

  abbrev h : PackedTableHeader
  h = decode_header blob

  -- The tests on the header's first eight bytes.
  abbrev has_start : Bool
  has_start =
      same_bytes (slice 0 4 blob) packed_table_magic
      && (le_value (slice 4 6 blob) == 1 && le_value (slice 6 8 blob) == 48)

  checked_bad :
      has_start ≡ false
      → is_ok checked_table ≡ (is_ok (decode_packed_table blob) && not (h.container_size == 0))
  unfolding check_header decode_packed_table
  checked_bad bad = ground (arith, bad, long)

  decode_body_refused :
      (length blob == add64 48 (mul64 h.entry_count 24)) ≡ false
      → is_ok (decode_body h blob) ≡ false
  unfolding decode_body
  decode_body_refused other = rw (decode_body, other) refl

  checked_good :
      has_start ≡ true
      → is_ok checked_table ≡ (is_ok (decode_body h blob) && not (h.container_size == 0))
  unfolding check_header decode_header
  checked_good good = elim (Bool-cases (length blob == add64 48 (mul64 h.entry_count 24))) [
    | inl same ↦
        let body =
          check_blob-decode_body read addr blob h whole (ground (arith, long)) small same in
        ground (arith, good, same, body)
    | inr other ↦ let refused = decode_body_refused other in ground (arith, good, other, refused)
  ]

  checked-decode :
      is_ok checked_table ≡ (is_ok (decode_packed_table blob) && not (h.container_size == 0))
  unfolding decode_packed_table
  checked-decode = elim (Bool-cases has_start) [
    | inr bad ↦ checked_bad bad
    | inl good ↦
        let body : is_ok (decode_packed_table blob) ≡ is_ok (decode_body h blob) =
          ground (arith, good, long) in
        checked_good good ∙ ap (λ b. b && not (h.container_size == 0)) (sym body)
  ]

module _ (read : ℕ → ℕ → Option (List ℕ)) (disk_bytes fid : ℕ) (blob : List ℕ) (p : Placement) where
  -- A table shorter than a header fails both tests.
  validate_short :
      ltb (length blob) 48 ≡ true
      → is_ok (validate_packed_table_object read disk_bytes fid (length blob))
        ≡ (is_ok (decode_packed_table blob) && not ((decode_header blob).container_size == 0))
  unfolding validate_packed_table_object decode_packed_table
  validate_short short = ground (arith, short)

  validate_long :
      ltb (length blob) 48 ≡ false
      → addr_for_fid disk_bytes fid (length blob) ≡ ok p
      → read p.addr 48 ≡ some (take 48 blob)
      → validate_packed_table_object read disk_bytes fid (length blob)
        ≡ (check_header blob (length blob) >>= λ h. check_blob read p.addr (length blob) h.0 h.1)
  unfolding validate_packed_table_object place_table read_or_fail
  validate_long long placed first =
      rw
        (
          validate_packed_table_object,
          long,
          place_table,
          placed,
          read_or_fail,
          first,
          all_48,
          check_header-take blob (length blob),
        )
        refl
    where
      all_48 : (length (take 48 blob) == 48) ≡ true
      all_48 = ground (arith, long, length-take 48 blob)

-- Where a placed table of at most 2 ^ 48 bytes can be read, the scrub accepts it exactly if the
-- daemon decodes it and its container is not of size 0: the two read the format alike, wrapped
-- entry counts included.
pub validate-decode :
    (read : ℕ → ℕ → Option (List ℕ)) (disk_bytes fid : ℕ) (blob : List ℕ) (p : Placement)
    → addr_for_fid disk_bytes fid (length blob) ≡ ok p
    → ((n : ℕ) → n ≤ length blob → read p.addr n ≡ some (take n blob))
    → length blob ≤ 2 ^ 48
    → is_ok (validate_packed_table_object read disk_bytes fid (length blob))
      ≡ (is_ok (decode_packed_table blob) && not ((decode_header blob).container_size == 0))
validate-decode read disk_bytes fid blob p placed reads small =
    elim (Bool-cases (ltb (length blob) 48)) [
      | inl short ↦ validate_short read disk_bytes fid blob p short
      | inr long ↦
          let all : take (length blob) blob ≡ blob = take_all (length blob) blob (omega arith) in
          let whole : read p.addr (length blob) ≡ some blob =
            rw all at (reads (length blob) (omega arith)) in
          ap is_ok
            (validate_long read disk_bytes fid blob p long placed (reads 48 (ground (arith, long))))
          ∙ checked-decode read p.addr blob whole long small
    ]
