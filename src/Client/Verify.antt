-- ===== src/Client/Verify.antt =====
-- pkg/client/client.go: VerifyContent. Its times are nanoseconds; `ended` says at which attempts the
-- wait is cut short by the context.
pub mod Waits
use bsos.Base.{
  ℕ, zero, suc, ◌*◌, ◌/◌, Bool, true, false, ◌&&◌, List, [], ◌∷◌, none, some, min, ltb, length,
  ◌==◌, if◌then◌else◌, Result, ok, err,
}
use bsos.Daemon.PackedTable.{same_bytes}
use bsos.Client.{Failure, still_not_found, context_done, is_not_found}
use bsos.Client.Download.{Reads, get_bytes}

pub record VerifyOptions : Type 0 where
  pub max_attempts : ℕ
  pub initial_backoff : ℕ
  pub compare_content : Bool

abbrev milliseconds : ℕ → ℕ
milliseconds n = n * 1000 * 1000

abbrev pub longest_backoff : ℕ
longest_backoff = milliseconds 500

abbrev default_options : VerifyOptions
default_options = record {
  max_attempts = 10;
  initial_backoff = milliseconds 20;
  compare_content = true;
}

-- The options given, with the defaults for those that are not positive.
pub verify_options : VerifyOptions → VerifyOptions
verify_options given = record {
  max_attempts =
      if ltb 0 given.max_attempts then given.max_attempts else default_options.max_attempts;
  initial_backoff =
      if ltb 0 given.initial_backoff
      then given.initial_backoff
      else default_options.initial_backoff;
  compare_content = given.compare_content;
}

-- Every attempt but the first one waits.
pub add_wait : Bool → ℕ → List ℕ → List ℕ
add_wait waits backoff later = if waits then backoff ∷ later else later

pub next_backoff : Bool → ℕ → ℕ
next_backoff waits backoff = if waits then min (backoff * 3 / 2) longest_backoff else backoff

module _ (g : Reads) (fid : ℕ) (expected : List ℕ) (compare_content : Bool) where
  -- One attempt: the content read back, or its size.
  unfoldable pub ask : g.Conn → g.Conn × Result Failure Bool
  ask c =
      let got = get_bytes g c fid none in
      let sized = g.head c fid in
      elim compare_content [
        | true ↦ (got.0, elim got.1 [ err e ↦ err e | ok bs ↦ ok (same_bytes bs expected) ])
        | false ↦ (sized.0, elim sized.1 [ err e ↦ err e | ok n ↦ ok (n == length expected) ])
      ]

  -- The state behind the attempts, the waits before them, and the answer.
  module _ (max_attempts : ℕ) (ended : ℕ → Bool) where
    pub verify_loop : ℕ → g.Conn → ℕ → ℕ → g.Conn × List ℕ × Result Failure Bool
    verify_loop zero c attempt backoff = (c, [], err (still_not_found max_attempts))
    verify_loop (suc left) c attempt backoff =
        let waits : Bool = ltb 0 attempt in
        let backoff' : ℕ = next_backoff waits backoff in
        let asked = ask c in
        let rest = verify_loop left asked.0 (suc attempt) backoff' in
        elim (waits && ended attempt) [
          | true ↦ (c, [], err context_done)
          | false ↦ elim asked.1 [
            | ok same ↦ (asked.0, add_wait waits backoff [], ok same)
            | err e ↦ elim (is_not_found e) [
              | false ↦ (asked.0, add_wait waits backoff [], err e)
              | true ↦ (rest.0, add_wait waits backoff rest.1, rest.2)
            ]
          ]
        ]

pub verify_content :
    (g : Reads)
    → g.Conn
    → ℕ
    → List ℕ
    → VerifyOptions
    → (ℕ → Bool)
    → g.Conn × List ℕ × Result Failure Bool
verify_content g c fid expected given ended =
    let options : VerifyOptions = verify_options given in
    verify_loop g fid expected options.compare_content options.max_attempts ended
      options.max_attempts c 0 options.initial_backoff
