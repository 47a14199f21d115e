-- ===== src/Daemon/Replay/Append.antt =====
-- internal/daemon/index_state.go: a replay over the entries that a commit appends.
use bsos.Base.{
  ◌/◌, sym, refl, take_all, take_append, drop_append, length-append, ℕ, ◌+◌, ◌*◌, ◌<◌, ◌≡◌, ap, ◌∙◌,
  ◌≢◌, true, false, List, [], ◌∷◌, ◌++◌, none, some, length, ◌==◌, if◌then◌else◌, IsU64, ok,
  Result-cases, Bool-cases, inl, inr, arith,
}
use bsos.Base.Maps.{lookup, insert}
use bsos.Blk.Layout.{index_packed_sentinel, index_jump_sentinel}
use bsos.Blk.Addr.{Placement}
use bsos.Blk.Entry.{
  pieces, is_zero_entry, IndexEntry, parse_index_entry, is_jump_indicator, is_packed_anchor,
  is_tombstone,
}
use bsos.Blk.Entry.Codec.{
  is_zero-entry_bytes, length-entry_bytes, entry_bytes, IsWritable, parse-build,
}
use bsos.Daemon.Device.{PreparedWrite, bad_alias, commit_bytes, publish, alias_jump_code}
use bsos.Daemon.Replay.{
  ReplayState, more, place, add_object, extent_of, replay_entries, replay_entry, replay_unpaired,
  replay_object, replay_alias,
}

-- A scan that wants more goes on with what follows.
pub replay_entries-append :
    (disk_bytes off : ℕ) (raws later : List (List ℕ)) (st st' : ReplayState)
    → replay_entries disk_bytes off raws st ≡ ok (more st')
    → replay_entries disk_bytes off (raws ++ later) st
      ≡ replay_entries disk_bytes (off + 16 * length raws) later st'
unfolding replay_entries
replay_entries-append disk_bytes off [] later st st' h = ground arith
replay_entries-append disk_bytes off (raw ∷ raws) later st st' h =
    elim (Bool-cases (is_zero_entry raw)) [
      | inl z ↦ absurd (ground arith)
      | inr z ↦ elim (Result-cases (parse_index_entry raw)) [
        | inr (e, p) ↦ absurd (ground arith)
        | inl (entry, p) ↦ elim (Result-cases (replay_entry disk_bytes st entry)) [
          | inr (e, r) ↦ absurd (ground arith)
          | inl (st1, r) ↦
              ground (arith, replay_entries-append disk_bytes (off + 16) raws later st1 st')
        ]
      ]
    ]

abbrev jump_entry : ℕ → IndexEntry
jump_entry alias_for = record {
  fid = alias_for;
  size = index_jump_sentinel;
  jump_code = alias_jump_code;
}

-- A scan of one written entry is one round of the replay.
replay_written :
    (disk_bytes off fid size jump_code : ℕ) (later : List (List ℕ)) (st st' : ReplayState)
    → IsU64 fid
    → 0 < size
    → IsWritable size jump_code
    → replay_entry disk_bytes st (record { fid = fid; size = size; jump_code = jump_code }) ≡ ok st'
    → replay_entries disk_bytes off (entry_bytes fid size jump_code ∷ later) st
      ≡ replay_entries disk_bytes (off + 16) later st'
unfolding replay_entries
replay_written disk_bytes off fid size jump_code later st st' hf pos w r = rw (
  is_zero-entry_bytes fid size jump_code (omega arith) pos,
  (parse-build fid size jump_code hf w).1,
  r,
)

-- The entries that a commit appends, as 16-byte pieces.
abbrev pub commit_raws : PreparedWrite → ℕ → List (List ℕ)
commit_raws pw alias_for =
    if alias_for == 0
    then entry_bytes pw.fid pw.size 0 ∷ []
    else entry_bytes alias_for index_jump_sentinel alias_jump_code
      ∷ entry_bytes pw.fid pw.size 0
      ∷ []

pieces_one : (a : List ℕ) → length a ≡ 16 → pieces 1 a ≡ a ∷ []
unfolding pieces
pieces_one a h = ap (λ x. x ∷ []) (take_all 16 a (omega (arith, h)))

pieces_two : (a b : List ℕ) → length a ≡ 16 → length b ≡ 16 → pieces 2 (a ++ b) ≡ a ∷ b ∷ []
unfolding pieces
pieces_two a b h k =
    rw (take_append a b 16 h, drop_append a b 16 h)
      (ap (λ x. a ∷ x ∷ []) (take_all 16 b (omega (arith, k))))

-- The 16-byte pieces of the bytes that a commit appends.
abbrev pub entries_of : List ℕ → List (List ℕ)
entries_of bytes = pieces (length bytes / 16) bytes

-- The bytes of a commit are its entries.
pub commit_bytes-commit_raws :
    (pw : PreparedWrite) (alias_for : ℕ)
    → IsU64 pw.fid
    → IsU64 alias_for
    → pw.size < index_packed_sentinel
    → (bytes : List ℕ) × (commit_bytes pw alias_for ≡ ok bytes)
      × (entries_of bytes ≡ commit_raws pw alias_for)
      × (length bytes ≡ 16 * length (commit_raws pw alias_for))
unfolding commit_bytes
commit_bytes-commit_raws pw alias_for hf ha hs =
    let own : List ℕ = entry_bytes pw.fid pw.size 0 in
    let jump : List ℕ = entry_bytes alias_for index_jump_sentinel alias_jump_code in
    let built = (parse-build pw.fid pw.size 0 hf (omega arith, inl refl)).0 in
    let jumped = (parse-build alias_for index_jump_sentinel 1 ha (omega arith, inr (inl refl))).0 in
    let own_16 = length-entry_bytes pw.fid pw.size 0 in
    let jump_16 = length-entry_bytes alias_for index_jump_sentinel alias_jump_code in
    elim (Bool-cases (alias_for == 0)) [
      | inl plain ↦ (
        own,
        rw (commit_bytes, built, plain) refl,
        rw plain (ap (λ (n : ℕ). pieces n own) (omega (arith, own_16)) ∙ pieces_one own own_16),
        rw plain own_16,
      )
      | inr aliased ↦ (
        jump ++ own,
        rw (commit_bytes, built, aliased, jumped) refl,
        rw aliased (
            ap (λ (n : ℕ). pieces n (jump ++ own))
              (omega (arith, own_16, jump_16, length-append jump own))
            ∙ pieces_two jump own jump_16 own_16),
        rw aliased (omega (arith, own_16, jump_16, length-append jump own)),
      )
    ]

-- What the tables become: the object with its extent, and the alias of it.
abbrev pub committed : ReplayState → PreparedWrite → ℕ → Placement → ReplayState
committed st pw alias_for p = record st {
  refs = publish st.refs pw alias_for;
  extents_map = insert pw.fid (extent_of p) st.extents_map;
}

replay_object_plain :
    (disk_bytes : ℕ) (st : ReplayState) (fid size : ℕ) (p : Placement)
    → st.pending_packed ≡ none
    → 0 < size
    → size < index_packed_sentinel
    → lookup fid st.refs ≡ none
    → place disk_bytes fid size ≡ ok p
    → replay_entry disk_bytes st (record { fid = fid; size = size; jump_code = 0 })
      ≡ replay_alias
          (add_object st fid size p)
          st.alias
          (record { fid = fid; size = size; jump_code = 0 })
unfolding replay_entry replay_unpaired replay_object is_packed_anchor is_jump_indicator is_tombstone
replay_object_plain disk_bytes st fid size p pend pos lt fresh pl =
    rw (pend, fresh, pl) (ground arith)

-- The jump indicator of an alias waits for its target.
replay_jump :
    (disk_bytes : ℕ) (st : ReplayState) (alias_for : ℕ)
    → st.pending_packed ≡ none
    → st.alias ≡ none
    → 0 < alias_for
    → lookup alias_for st.refs ≡ none
    → replay_entry disk_bytes st (jump_entry alias_for)
      ≡ ok (record st { alias = some (jump_entry alias_for) })
unfolding replay_entry replay_unpaired is_packed_anchor is_jump_indicator
replay_jump disk_bytes st alias_for pend al pos fresh = rw (pend, al, fresh) (ground arith)

-- A commit in the view of its disk's index.
pub record IsCommittable (disk_bytes : ℕ) (st : ReplayState) (pw : PreparedWrite) (alias_for : ℕ)
    (placement : Placement) : Type 0 where
  pub no_pair : st.pending_packed ≡ none
  pub no_alias : st.alias ≡ none
  pub fid_range : IsU64 pw.fid
  pub alias_range : IsU64 alias_for
  pub size_pos : 0 < pw.size
  pub size_lt : pw.size < index_packed_sentinel
  pub fresh : lookup pw.fid st.refs ≡ none
  pub alias_fresh : alias_for ≢ 0 → lookup alias_for st.refs ≡ none
  pub good_alias : bad_alias pw alias_for ≡ false
  pub placed : place disk_bytes pw.fid pw.size ≡ ok placement

abbrev object_entry : PreparedWrite → IndexEntry
object_entry pw = record { fid = pw.fid; size = pw.size; jump_code = 0 }

plain_step :
    (st : ReplayState) (pw : PreparedWrite) (alias_for : ℕ) (p : Placement)
    → (alias_for == 0) ≡ true
    → st.alias ≡ none
    → replay_alias (add_object st pw.fid pw.size p) st.alias (object_entry pw)
      ≡ ok (committed st pw alias_for p)
unfolding publish replay_alias
plain_step st pw alias_for p plain al = rw (plain, al)

alias_step :
    (st : ReplayState) (pw : PreparedWrite) (alias_for : ℕ) (p : Placement)
    → (alias_for == 0) ≡ false
    → bad_alias pw alias_for ≡ false
    → st.alias ≡ none
    → replay_alias
        (add_object (record st { alias = some (jump_entry alias_for) }) pw.fid pw.size p)
        (some (jump_entry alias_for))
        (object_entry pw)
      ≡ ok (committed st pw alias_for p)
unfolding publish replay_alias
alias_step st pw alias_for p aliased good al = ground arith

module _ (disk_bytes off : ℕ) (st : ReplayState) (pw : PreparedWrite) (alias_for : ℕ)
    (later : List (List ℕ)) (p : Placement) (c : IsCommittable disk_bytes st pw alias_for p) where
  abbrev after_commit : ReplayState
  after_commit = committed st pw alias_for p

  replay_plain_commit :
      (alias_for == 0) ≡ true
      → replay_entries disk_bytes off (entry_bytes pw.fid pw.size 0 ∷ later) st
        ≡ replay_entries disk_bytes (off + 16) later after_commit
  replay_plain_commit plain =
      replay_written disk_bytes off pw.fid pw.size 0 later st after_commit c.fid_range c.size_pos
        (omega (arith, c.size_lt))
        (replay_object_plain disk_bytes st pw.fid pw.size p c.no_pair c.size_pos c.size_lt c.fresh
            c.placed
          ∙ plain_step st pw alias_for p plain c.no_alias)

  replay_alias_commit :
      (alias_for == 0) ≡ false
      → replay_entries disk_bytes off
          (entry_bytes alias_for index_jump_sentinel alias_jump_code
            ∷ entry_bytes pw.fid pw.size 0
            ∷ later)
          st
        ≡ replay_entries disk_bytes (off + 16 + 16) later after_commit
  replay_alias_commit aliased =
      replay_written disk_bytes off alias_for index_jump_sentinel alias_jump_code
        (entry_bytes pw.fid pw.size 0 ∷ later) st waiting c.alias_range (omega arith) (omega arith)
        (replay_jump disk_bytes st alias_for c.no_pair c.no_alias (ground arith)
          (c.alias_fresh (ground arith)))
      ∙ replay_written disk_bytes (off + 16) pw.fid pw.size 0 later waiting after_commit c.fid_range
          c.size_pos (omega (arith, c.size_lt))
          (replay_object_plain disk_bytes waiting pw.fid pw.size p c.no_pair c.size_pos c.size_lt
              c.fresh c.placed
            ∙ alias_step st pw alias_for p aliased c.good_alias c.no_alias)
    where
      waiting : ReplayState
      waiting = record st { alias = some (jump_entry alias_for) }

  pub replay_entries-commit_raws :
      replay_entries disk_bytes off (commit_raws pw alias_for ++ later) st
      ≡ replay_entries disk_bytes (off + 16 * length (commit_raws pw alias_for)) later after_commit
  replay_entries-commit_raws = elim (Bool-cases (alias_for == 0)) [
    | inl plain ↦ rw plain (replay_plain_commit plain)
    | inr aliased ↦ rw aliased (
        replay_alias_commit aliased
        ∙ ap (λ (o : ℕ). replay_entries disk_bytes o later after_commit) (omega arith))
  ]

  -- For a commit of a fresh fid and alias that the address function places, with no pair waiting, a
  -- replay of the 16-byte pieces of the bytes that Commit builds for its index entries gives the
  -- tables that the commit publishes, and goes on behind these bytes with what follows.
  pub replay_entries-commit :
      (bytes : List ℕ) × (commit_bytes pw alias_for ≡ ok bytes)
      × (replay_entries disk_bytes off (entries_of bytes ++ later) st
          ≡ replay_entries disk_bytes (off + length bytes) later after_commit)
  replay_entries-commit =
      let (bytes, built, same, len) =
        commit_bytes-commit_raws pw alias_for c.fid_range c.alias_range c.size_lt in
      (
        bytes,
        built,
        ap (λ raws. replay_entries disk_bytes off (raws ++ later) st) same
            ∙ replay_entries-commit_raws
            ∙ ap (λ (n : ℕ). replay_entries disk_bytes (off + n) later after_commit) (sym len),
      )
