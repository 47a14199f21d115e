-- ===== src/Client/Download.antt =====
-- pkg/client/client.go: Get, GetBytes, GetFile and Head.
pub mod Whole
use bsos.Base.{
  ℕ, ◌+◌, Bool, true, false, not, List, [], ◌∷◌, ◌++◌, Option, none, some, length, ◌==◌,
  if◌then◌else◌, Result, ok, err,
}
use bsos.Client.{Failure}

pub record GetResponse : Type 0 where
  pub size : ℕ
  pub data_bytes : List ℕ

-- What Recv gives on a stream of the generated client: these messages, and then the end or an error.
pub record Responses : Type 0 where
  pub messages : List GetResponse
  pub ending : Option Failure

-- The generated client's Get and Head, of a fid and a range.
pub record Reads : Type 1 where
  pub Conn : Type 0
  pub get_stream : Conn → ℕ → Option (ℕ × ℕ) → Conn × Result Failure Responses
  pub head : Conn → ℕ → Conn × Result Failure ℕ

-- Where a download goes: an io.Writer, which answers with its count and maybe an error.
pub record Writer : Type 1 where
  pub Out : Type 0
  pub write : Out → List ℕ → Out × ℕ × Option Failure

pub record Received (Out : Type 0) : Type 0 where
  pub out : Out
  pub total_size : ℕ
  pub written : ℕ
  pub failure : Option Failure

-- bytes.Buffer, which takes everything.
abbrev pub buffer : Writer
buffer = record { Out = List ℕ; write = λ out bs. (out ++ bs, length bs, none) }

module _ (w : Writer) where
  pub get_loop : List GetResponse → Option Failure → w.Out → ℕ → ℕ → Received w.Out
  get_loop [] none out total written = record {
    out = out;
    total_size = total;
    written = written;
    failure = none;
  }
  get_loop [] (some e) out total written = record {
    out = out;
    total_size = 0;
    written = written;
    failure = some e;
  }
  get_loop (m ∷ ms) ending out total written =
      let wrote = w.write out m.data_bytes in
      elim (length m.data_bytes == 0) [
        | true ↦ get_loop ms ending out m.size written
        | false ↦ elim wrote.2 [
          | some e ↦ record {
            out = wrote.0;
            total_size = m.size;
            written = written + wrote.1;
            failure = some e;
          }
          | none ↦ get_loop ms ending wrote.0 m.size (written + wrote.1)
        ]
      ]

  module _ (g : Reads) where
    pub get : g.Conn → ℕ → Option (ℕ × ℕ) → w.Out → g.Conn × Received w.Out
    get c fid range out =
        let opened = g.get_stream c fid range in
        (
          opened.0,
          elim opened.1 [
            | err e ↦ record { out = out; total_size = 0; written = 0; failure = some e }
            | ok responses ↦ get_loop responses.messages responses.ending out 0 0
          ],
        )

module _ (g : Reads) where
  pub get_bytes : g.Conn → ℕ → Option (ℕ × ℕ) → g.Conn × Result Failure (List ℕ)
  get_bytes c fid range =
      let received = get buffer g c fid range [] in
      (received.0, elim received.1.failure [ some e ↦ err e | none ↦ ok received.1.out ])

  -- The file that is left: its bytes, or none where it was removed.
  unfoldable get_file :
      (w : Writer) → g.Conn → ℕ → Option (ℕ × ℕ) → w.Out → g.Conn × Option w.Out × Option Failure
  get_file w c fid range created =
      let received = get w g c fid range created in
      elim received.1.failure [
        | some e ↦ (received.0, none, some e)
        | none ↦ (received.0, some received.1.out, none)
      ]
