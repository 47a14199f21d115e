-- ===== src/Blk/Header/RoundTrip.antt =====
-- internal/blk/header.go: ParseHeader on the headers of init.go.
use bsos.Base.{
  ℕ, zero, suc, ◌-◌, ◌^◌, ◌≤◌, ◌<◌, ◌≡◌, ◌≢◌, refl, ap, ◌∙◌, true, false, List, [], ◌∷◌, ◌++◌,
  length, length-take, length-append, length-replicate, take, replicate, All, IsU64, ltb, ok, arith,
}
use bsos.Base.Bytes.{le_bytes, le_value, le_value-le_bytes}
use bsos.Blk.Layout.{header_bytes, format_version}
use bsos.Blk.Header.{has_magic, header_fields, magic, parse_header, build_header, note_length}

take-take : (n : ℕ) (xs : List ℕ) → take n (take n xs) ≡ take n xs
take-take zero xs = refl
take-take (suc n) [] = refl
take-take (suc n) (x ∷ xs) = ap (◌∷◌ x) (take-take n xs)

note_length-zeros : (n m : ℕ) → note_length (take n (replicate m 0)) ≡ 0
unfolding note_length
note_length-zeros zero m = refl
note_length-zeros (suc n) zero = refl
note_length-zeros (suc n) (suc m) = refl

note_length-padded :
    (n m : ℕ) (note : List ℕ)
    → All (λ b. b ≢ 0) note
    → length note ≤ n
    → note_length (take n (note ++ replicate m 0)) ≡ length note
unfolding note_length
note_length-padded n m [] a h = note_length-zeros n m
note_length-padded zero m (b ∷ bs) a h = absurd (omega (arith, h))
note_length-padded (suc n) m (b ∷ bs) (nz, a) h =
    ground (arith, nz, note_length-padded n m bs a (omega (arith, h)))

parse_checked :
    (buf : List ℕ)
    → ltb (length buf) header_bytes ≡ false
    → has_magic buf ≡ true
    → parse_header buf ≡ ok (header_fields buf)
unfolding parse_header
parse_checked buf h m = ground (arith, h, m)

-- The fields stand where they are read, whatever note follows.
parse_fields :
    (capacity_gb disk_id : ℕ) (t : List ℕ)
    → length t ≡ header_bytes - 16
    → parse_header (
        magic
        ++ (le_bytes 2 format_version ++ (le_bytes 2 capacity_gb ++ (le_bytes 8 disk_id ++ t))))
      ≡ ok (record {
        version = format_version;
        capacity_gb = le_value (le_bytes 2 capacity_gb);
        disk_id = le_value (le_bytes 8 disk_id);
        note_len = note_length (take (header_bytes - 16) t);
      })
unfolding has_magic header_fields le_bytes le_value
parse_fields capacity_gb disk_id t h =
    parse_checked
      (magic
        ++ (le_bytes 2 format_version ++ (le_bytes 2 capacity_gb ++ (le_bytes 8 disk_id ++ t))))
      (not_below _ (omega (arith, h))) refl
  where
    not_below : (n : ℕ) → n ≡ header_bytes → ltb n header_bytes ≡ false
    not_below n e = ground (arith, e)

module _ (capacity_gb disk_id : ℕ) (note : List ℕ) where
  tail : List ℕ
  tail = take (header_bytes - 16) (note ++ replicate (header_bytes - 16) 0)

  length-tail : length tail ≡ header_bytes - 16
  unfolding tail
  length-tail = omega (
    arith,
    length-take (header_bytes - 16) (note ++ replicate (header_bytes - 16) 0),
    length-append note (replicate (header_bytes - 16) 0),
    length-replicate {A = ℕ} (header_bytes - 16) 0,
  )

  -- A header of a 16-bit capacity, a 64-bit disk id and a note of non-zero bytes that fits is read
  -- back with these and the note's length.
  parse-build_header :
      capacity_gb < 2 ^ 16
      → IsU64 disk_id
      → All (λ b. b ≢ 0) note
      → length note ≤ header_bytes - 16
      → parse_header (build_header capacity_gb disk_id note)
        ≡ ok (record {
          version = format_version;
          capacity_gb = capacity_gb;
          disk_id = disk_id;
          note_len = length note;
        })
  unfolding build_header tail
  parse-build_header hc hd nz fits =
      parse_fields capacity_gb disk_id tail length-tail
      ∙ rw
          (
            le_value-le_bytes 2 capacity_gb (omega (arith, hc)),
            le_value-le_bytes 8 disk_id (omega (arith, hd)),
            take-take (header_bytes - 16) (note ++ replicate (header_bytes - 16) 0),
            note_length-padded (header_bytes - 16) (header_bytes - 16) note nz fits,
          )
          refl
