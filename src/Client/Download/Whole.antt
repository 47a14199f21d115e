-- ===== src/Client/Download/Whole.antt =====
-- pkg/client/client.go: what Get makes of the messages of a stream.
use bsos.Base.{
  ℕ, ◌+◌, ◌*◌, ◌≤◌, ◌<◌, ◌≡◌, refl, sym, ap, ◌∙◌, false, List, [], ◌∷◌, ◌++◌, append_nil,
  append_assoc, Option, none, some, length, length-append, ◌==◌, Option-cases, Result, ok, err, inl,
  inr, arith,
}
use bsos.Daemon.Errors.{Error}
use bsos.Daemon.Server.{message_bytes, send_loop}
use bsos.Daemon.Server.Ranges.{part, joined, send_loop-joined}
use bsos.Client.{Failure}
use bsos.Client.Download.{GetResponse, Responses, Reads, buffer, get_loop, get, get_bytes}

abbrev payload : List GetResponse → List ℕ
payload [] = []
payload (m ∷ ms) = m.data_bytes ++ payload ms

-- One message, whether it carries bytes or not.
get_loop_message :
    (size : ℕ) (bs : List ℕ) (ms : List GetResponse) (ending : Option Failure) (out : List ℕ)
    (total written : ℕ)
    → get_loop buffer (record { size = size; data_bytes = bs } ∷ ms) ending out total written
      ≡ get_loop buffer ms ending (out ++ bs) size (written + length bs)
unfolding get_loop
get_loop_message size [] ms ending out total written =
    let same : written + 0 ≡ written = omega arith in rw (append_nil out, same) refl
get_loop_message size (b ∷ bs) ms ending out total written =
    let some_bytes : (length (b ∷ bs) == 0) ≡ false = ground arith in rw (some_bytes, get_loop) refl

get_loop-payload :
    (ms : List GetResponse) (ending : Option Failure) (out : List ℕ) (total written : ℕ)
    → ((get_loop buffer ms ending out total written).out ≡ out ++ payload ms)
      × ((get_loop buffer ms ending out total written).written ≡ written + length (payload ms))
      × ((get_loop buffer ms ending out total written).failure ≡ ending)
unfolding get_loop
get_loop-payload [] none out total written = (sym (append_nil out), omega arith, refl)
get_loop-payload [] (some e) out total written = (sym (append_nil out), omega arith, refl)
get_loop-payload (m ∷ ms) ending out total written =
    let step = get_loop_message m.size m.data_bytes ms ending out total written in
    let (eq, count, end) =
      get_loop-payload ms ending (out ++ m.data_bytes) m.size (written + length m.data_bytes) in
    (
      ap (λ r. r.out) step ∙ eq ∙ append_assoc out m.data_bytes (payload ms),
      ap (λ r. r.written) step ∙ omega (arith, count, length-append m.data_bytes (payload ms)),
      ap (λ r. r.failure) step ∙ end,
    )

-- GetBytes gives the joined bytes of the messages where the stream ends well, and the stream's
-- error where it does not.
get_bytes-payload :
    (g : Reads) (c c' : g.Conn) (fid : ℕ) (range : Option (ℕ × ℕ)) (responses : Responses)
    → g.get_stream c fid range ≡ (c', ok responses)
    → get_bytes g c fid range
      ≡ (c', elim responses.ending [ none ↦ ok (payload responses.messages) | some e ↦ err e ])
unfolding get_bytes get
get_bytes-payload g c c' fid range responses h =
    let (eq, count, end) = get_loop-payload responses.messages responses.ending [] 0 0 in
    elim (Option-cases responses.ending) [
      | inl w ↦ rw (h, end, w, get, h, eq) refl
      | inr (e, w) ↦ rw (h, end, w) refl
    ]

-- The handler's messages, as the client's stream gives them.
abbrev pub answers_of : ℕ → List (ℕ × ℕ × List ℕ) → List GetResponse
answers_of size [] = []
answers_of size ((a, b, bs) ∷ ms) = record { size = size; data_bytes = bs } ∷ answers_of size ms

payload-answers_of :
    (size : ℕ) (ms : List (ℕ × ℕ × List ℕ)) → payload (answers_of size ms) ≡ joined ms
payload-answers_of size [] = refl
payload-answers_of size ((a, b, bs) ∷ ms) = ap (bs ++◌) (payload-answers_of size ms)

-- Where the reads of a disk give the object's bytes, enough rounds are allowed, and the client's
-- stream carries the messages that the handler of Get sends for a range, GetBytes gives exactly the
-- bytes of the range.
pub get_bytes-send_loop :
    (g : Reads) (c c' : g.Conn) (fid : ℕ) (range : Option (ℕ × ℕ)) (content : List ℕ)
    (read : ℕ → ℕ → Result Error (List ℕ)) (rounds start end : ℕ)
    → ((a b : ℕ) → read a b ≡ ok (part content a b))
    → start ≤ end
    → 0 < rounds
    → end ≤ start + rounds * message_bytes
    → ((ms : List (ℕ × ℕ × List ℕ))
        → send_loop rounds read start end ≡ ok ms
        → g.get_stream c fid range
          ≡ (c', ok (record { messages = answers_of (length content) ms; ending = none })))
    → get_bytes g c fid range ≡ (c', ok (part content start end))
get_bytes-send_loop g c c' fid range content read rounds start end reads le pos enough served =
    let (ms, sent, eq, small) =
      send_loop-joined rounds content read start end reads le pos enough in
    get_bytes-payload g c c' fid range _ (served ms sent)
    ∙ ap (λ (bs : List ℕ). (c', ok bs)) (payload-answers_of (length content) ms ∙ eq)
