-- ===== src/Client/Manifest.antt =====
-- pkg/manifest/manifest.go. The protobuf runtime is outside: `marshal` and `unmarshal` stand for it.
use bsos.Base.{
  ℕ, ◌≡◌, refl, Bool, true, not, ◌&&◌, List, [], ◌∷◌, ◌++◌, Option, none, some, length, take, drop,
  leb, ◌==◌, if◌then◌else◌, Result, ok, err, ok_injective, subst, inl, inr, Option-cases, arith,
}
use bsos.Daemon.PackedTable.{same_bytes}

pub record ChunkDescriptor : Type 0 where
  pub fid : ℕ
  pub offset : ℕ
  pub size : ℕ

pub record FileManifest : Type 0 where
  pub version : ℕ
  pub total_size : ℕ
  pub full_content_hash : ℕ
  pub filename : List ℕ
  pub chunk_target_size : ℕ
  pub chunks : List ChunkDescriptor

pub data ManifestError : Type 0 where
  invalid_magic marshal_failed unmarshal_failed : ManifestError
  unsupported_version : ℕ → ManifestError

-- "BSMN" and the byte 1.
abbrev pub magic_header : List ℕ
magic_header = 66 ∷ 83 ∷ 77 ∷ 78 ∷ 1 ∷ []

abbrev pub current_version : ℕ
current_version = 1

pub is_manifest : List ℕ → Bool
is_manifest bs =
    leb (length magic_header) (length bs) && same_bytes (take (length magic_header) bs) magic_header

-- Encode fills in a version of 0.
unfoldable pub with_version : FileManifest → FileManifest
with_version m = if m.version == 0 then record m { version = current_version } else m

module _ (marshal : FileManifest → Option (List ℕ)) (unmarshal : List ℕ → Option FileManifest) where
  unfoldable pub encode : FileManifest → Result ManifestError (List ℕ)
  encode m = elim (marshal (with_version m)) [
    | none ↦ err marshal_failed
    | some payload ↦ ok (magic_header ++ payload)
  ]

  unfoldable pub decode : List ℕ → Result ManifestError FileManifest
  decode bs =
      if not (is_manifest bs)
      then err invalid_magic
      else elim (unmarshal (drop (length magic_header) bs)) [
        | none ↦ err unmarshal_failed
        | some m ↦
            if m.version == current_version then ok m else err (unsupported_version m.version)
      ]

  is_manifest_append : (payload : List ℕ) → is_manifest (magic_header ++ payload) ≡ true
  unfolding is_manifest
  is_manifest_append payload = ground arith

  -- Where the protobuf runtime reads back what it has written, a manifest of the current version,
  -- or of version 0, which Encode fills in, is decoded from the bytes that it is encoded as, and
  -- these start like a manifest.
  pub decode-encode_manifest :
      (m : FileManifest) (bs : List ℕ)
      → ((n : FileManifest) (payload : List ℕ)
          → marshal n ≡ some payload
          → unmarshal payload ≡ some n)
      → encode m ≡ ok bs
      → (with_version m).version ≡ current_version
      → (decode bs ≡ ok (with_version m)) × (is_manifest bs ≡ true)
  unfolding encode decode
  decode-encode_manifest m bs lawful h v = elim (Option-cases (marshal (with_version m))) [
    | inl w ↦ absurd (ground (arith, rw (w, encode) at h))
    | inr (payload, w) ↦
        let written : magic_header ++ payload ≡ bs = ok_injective (rw (w, encode) at h) in
        let back = lawful (with_version m) payload w in
        let good : ((with_version m).version == current_version) ≡ true = ground (arith, v) in
        subst (λ t. (decode t ≡ ok (with_version m)) × (is_manifest t ≡ true)) written
          (rw (is_manifest_append payload, back, good, decode) (refl, refl))
  ]
