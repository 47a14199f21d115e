-- ===== src/Daemon/Server/Ranges.antt =====
-- internal/daemon/server.go: the range and the messages of Get.
use bsos.Base.{
  ℕ, zero, suc, ◌+◌, ◌-◌, ◌*◌, ◌≤◌, ◌<◌, ◌≡◌, refl, sym, ap, ◌∙◌, List, [], ◌∷◌, ◌++◌, append_nil,
  some, All, min, take, drop, ◌==◌, Result, ok, Bool-cases, inl, inr, arith,
}
use bsos.Daemon.Errors.{Error}
use bsos.Daemon.Server.{message_bytes, send_loop, clamp_range}

-- The bytes [a, b) of an object.
abbrev pub part : List ℕ → ℕ → ℕ → List ℕ
part content a b = take (b - a) (drop a content)

abbrev pub joined : List (ℕ × ℕ × List ℕ) → List ℕ
joined [] = []
joined ((a, b, data') ∷ ms) = data' ++ joined ms

abbrev IsSmall : ℕ × ℕ × List ℕ → Type 0
IsSmall (a, b, data') = (a ≤ b) × (b ≤ a + message_bytes)

module _ {ℓ} {A : Type ℓ} where
  take_nil : (n : ℕ) → take {A = A} n [] ≡ []
  take_nil zero = refl
  take_nil (suc n) = refl

  drop_nil : (n : ℕ) → drop {A = A} n [] ≡ []
  drop_nil zero = refl
  drop_nil (suc n) = refl

  take_split : (m n k : ℕ) (xs : List A) → k ≡ m + n → take m xs ++ take n (drop m xs) ≡ take k xs
  take_split zero n k xs h = ap (λ i. take i xs) (omega (arith, h))
  take_split (suc m) n zero xs h = absurd (omega (arith, h))
  take_split (suc m) n (suc k) [] h = take_nil n
  take_split (suc m) n (suc k) (x ∷ xs) h = ap (◌∷◌ x) (take_split m n k xs (omega (arith, h)))

  drop-drop : (m n k : ℕ) (xs : List A) → k ≡ m + n → drop n (drop m xs) ≡ drop k xs
  drop-drop zero n k xs h = ap (λ i. drop i xs) (omega (arith, h))
  drop-drop (suc m) n zero xs h = absurd (omega (arith, h))
  drop-drop (suc m) n (suc k) [] h = drop_nil n
  drop-drop (suc m) n (suc k) (x ∷ xs) h = drop-drop m n k xs (omega (arith, h))

part_split :
    (content : List ℕ) (a b c : ℕ)
    → a ≤ b
    → b ≤ c
    → part content a b ++ part content b c ≡ part content a c
part_split content a b c ab bc =
    ap (λ t. part content a b ++ take (c - b) t)
      (sym (drop-drop a (b - a) b content (omega (arith, ab))))
    ∙ take_split (b - a) (c - b) (c - a) (drop a content) (omega (arith, ab, bc))

-- Where the reads give the object's bytes and enough rounds are allowed, a Get of a range sends
-- messages of 1 MiB at most that join to the bytes of the range: none is lost, repeated or sent
-- after the end.
pub send_loop-joined :
    (rounds : ℕ) (content : List ℕ) (read : ℕ → ℕ → Result Error (List ℕ)) (pos end : ℕ)
    → ((a b : ℕ) → read a b ≡ ok (part content a b))
    → pos ≤ end
    → 0 < rounds
    → end ≤ pos + rounds * message_bytes
    → (ms : List (ℕ × ℕ × List ℕ)) × (send_loop rounds read pos end ≡ ok ms)
      × (joined ms ≡ part content pos end)
      × All IsSmall ms
unfolding send_loop
send_loop-joined zero content read pos end reads le pos_rounds enough =
    absurd (omega (arith, pos_rounds))
send_loop-joined (suc rounds) content read pos end reads le pos_rounds enough =
    let next : ℕ = min (pos + message_bytes) end in
    elim (Bool-cases (next == end)) [
      | inl last ↦ (
        (pos, next, part content pos next) ∷ [],
        rw (reads pos next, last, send_loop) refl,
        append_nil (part content pos next) ∙ ap (part content pos) (ground (arith, last)),
        ((omega (arith, le), omega arith), tt),
      )
      | inr on ↦
          let (ms, sent, eq, small) =
            send_loop-joined rounds content read next end reads (omega arith) (ground arith)
              (ground arith) in
          (
            (pos, next, part content pos next) ∷ ms,
            rw (reads pos next, on, sent, send_loop) refl,
            ap (part content pos next ++◌) eq
                ∙ part_split content pos next end (omega arith) (omega arith),
            ((omega arith, omega arith), small),
          )
    ]

-- A range of a Get that is accepted starts where it was asked to, is not inverted, ends inside the
-- object, and ends where it was asked to if that is positive and inside.
clamp_range-bounds :
    (size start end : ℕ) (a b : ℕ)
    → clamp_range size (some (start, end)) ≡ ok (a, b)
    → (a ≡ start) × (a ≤ b) × (b ≤ size) × (0 < end → end ≤ size → b ≡ end)
unfolding clamp_range
clamp_range-bounds size start end a b h = ground (arith, h)
