-- ===== src/Client/Tests/Downloads.antt =====
-- The downloads of the client at concrete inputs.
use bsos.Base.{
  ℕ, ◌≡◌, refl, ap, true, false, List, [], ◌∷◌, none, some, Result, ok, err, arith, Bool,
}
use bsos.Daemon.Errors.{Error}
use bsos.Daemon.Server.{Status, send_loop}
use bsos.Daemon.Server.Ranges.{part}
use bsos.Client.{Failure, read_error}
use bsos.Client.Download.{Reads, Responses, get_bytes}
use bsos.Client.Download.Whole.{answers_of, get_bytes-send_loop}
use bsos.Client.Verify.{VerifyOptions, verify_options, verify_content}
use bsos.Client.Verify.Waits.{Answered, AreShort, verify_content-Answered}

abbrev content : List ℕ
content = 1 ∷ 2 ∷ 3 ∷ 4 ∷ []

abbrev read_content : ℕ → ℕ → Result Error (List ℕ)
read_content a b = ok (part content a b)

abbrev responses_of : Result Status (List (ℕ × ℕ × List ℕ)) → Result Failure Responses
responses_of (ok ms) = ok (record { messages = answers_of 4 ms; ending = none })
responses_of (err e) = err read_error

abbrev answer_to : ℕ → Result Status (List (ℕ × ℕ × List ℕ)) → ℕ × Result Failure Responses
answer_to c sent = (c, responses_of sent)

-- A server of one object.
abbrev one_object : Reads
one_object = record {
  Conn = ℕ;
  get_stream = λ c fid range. answer_to c (send_loop 2 read_content 1 3);
  head = λ c fid. (c, ok 4);
}

get_bytes-send_loop_example : get_bytes one_object 0 7 (some (1, 3)) ≡ (0, ok (part content 1 3))
get_bytes-send_loop_example =
    get_bytes-send_loop one_object 0 0 7 (some (1, 3)) content read_content 2 1 3 (λ a b. refl)
      (omega arith) (omega arith) (omega arith) (λ ms h. ap (answer_to 0) h)

abbrev default_given : VerifyOptions
default_given = record { max_attempts = 0; initial_backoff = 0; compare_content = true }

abbrev never : ℕ → Bool
never attempt = false

verify_content-Answered_example :
    Answered one_object 7 content true
      (verify_options default_given).max_attempts
      never
      0
      (verify_options default_given).max_attempts
      0
      (verify_content one_object 0 7 content default_given never)
    × AreShort one_object 7 content true
        (verify_options default_given).max_attempts
        never
        (verify_options default_given).max_attempts
        (verify_content one_object 0 7 content default_given never)
verify_content-Answered_example =
    verify_content-Answered one_object 0 7 content default_given never (omega arith)
