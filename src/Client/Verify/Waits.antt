-- ===== src/Client/Verify/Waits.antt =====
-- pkg/client/client.go: the attempts of VerifyContent and the waits between them.
use bsos.Base.{
  ◌+◌, not, ok, ℕ, zero, suc, ◌≤◌, ◌<◌, ◌≡◌, refl, sym, subst, ◌&&◌, ◌⊎◌, Bool, true, false, List,
  [], length, All, ltb, Bool-cases, Result, Result-cases, err, inl, inr, arith,
}
use bsos.Client.{Failure, still_not_found, context_done, is_not_found}
use bsos.Client.Download.{Reads}
use bsos.Client.Verify.{
  ask, verify_loop, longest_backoff, add_wait, next_backoff, VerifyOptions, verify_options,
  verify_content,
}

module _ (g : Reads) (fid : ℕ) (expected : List ℕ) (compare_content : Bool) (max_attempts : ℕ)
    (ended : ℕ → Bool) where
  -- Before an attempt that is not the first one, the context may have ended.
  abbrev cut_short : ℕ → Bool
  cut_short attempt = ltb 0 attempt && ended attempt

  -- Whether an answer ends the attempts: everything but NotFound does.
  abbrev is_final : Result Failure Bool → Bool
  is_final (ok same) = true
  is_final (err e) = not (is_not_found e)

  -- From one state to another, a number of attempts from the given one on, none of them cut short,
  -- and each answered with NotFound.
  pub data Missed : ℕ → ℕ → g.Conn → g.Conn → Type 0 where
    not_yet : {attempt : ℕ} {c : g.Conn} → Missed attempt 0 c c
    missed :
        {attempt n : ℕ} {c c' : g.Conn} {e : Failure}
        → cut_short attempt ≡ false
        → (ask g fid expected compare_content c).1 ≡ err e
        → is_not_found e ≡ true
        → Missed (suc attempt) n (ask g fid expected compare_content c).0 c'
        → Missed attempt (suc n) c c'

  -- The answer is that of an attempt behind others that found nothing, or no attempt found anything,
  -- or the context had ended before the next attempt.
  abbrev pub Answered : ℕ → ℕ → g.Conn → g.Conn × List ℕ × Result Failure Bool → Type 0
  Answered attempt left c (c', waits, answer) =
      ((n : ℕ) × (c2 : g.Conn) × (n < left)
        × Missed attempt n c c2
        × (cut_short (attempt + n) ≡ false)
        × (ask g fid expected compare_content c2 ≡ (c', answer))
        × (is_final answer ≡ true))
      ⊎ (Missed attempt left c c' × (answer ≡ err (still_not_found max_attempts)))
      ⊎ ((n : ℕ) × (n < left)
          × Missed attempt n c c'
          × (cut_short (attempt + n) ≡ true)
          × (answer ≡ err context_done))

  abbrev run : ℕ → g.Conn → ℕ → ℕ → g.Conn × List ℕ × Result Failure Bool
  run = verify_loop g fid expected compare_content max_attempts ended

  abbrev asked : g.Conn → g.Conn × Result Failure Bool
  asked = ask g fid expected compare_content

  module _ (left : ℕ) (c : g.Conn) (attempt backoff : ℕ) where
    abbrev rest : g.Conn × List ℕ × Result Failure Bool
    rest = run left (asked c).0 (suc attempt) (next_backoff (ltb 0 attempt) backoff)

    -- The ways out of one round.
    run_cases :
        ((cut_short attempt ≡ true)
          × (run (suc left) c attempt backoff ≡ (c, [], err context_done)))
        ⊎ ((cut_short attempt ≡ false)
            × (is_final (asked c).1 ≡ true)
            × (run (suc left) c attempt backoff
                ≡ ((asked c).0, add_wait (ltb 0 attempt) backoff [], (asked c).1)))
        ⊎ ((e : Failure) × (cut_short attempt ≡ false)
            × ((asked c).1 ≡ err e)
            × (is_not_found e ≡ true)
            × (run (suc left) c attempt backoff
                ≡ (rest.0, add_wait (ltb 0 attempt) backoff rest.1, rest.2)))
    unfolding verify_loop
    run_cases = elim (Bool-cases (cut_short attempt)) [
      | inl short ↦ inl (short, rw (short, verify_loop) refl)
      | inr on ↦ inr (elim (Result-cases (asked c).1) [
        | inl (same, w) ↦ inl (on, rw w refl, rw (on, w, verify_loop) refl)
        | inr (e, w) ↦ elim (Bool-cases (is_not_found e)) [
          | inr other ↦ inl (on, rw (w, other) refl, rw (on, w, other, verify_loop) refl)
          | inl missing ↦ inr (e, on, w, missing, rw (on, w, missing, verify_loop) refl)
        ]
      ])
    ]

  -- The waits of a call are no more than the attempts left, and none is above half a second.
  abbrev pub AreShort : ℕ → g.Conn × List ℕ × Result Failure Bool → Type 0
  AreShort left out = All (λ w. w ≤ longest_backoff) out.1 × (length out.1 ≤ left)

  add_wait_short :
      (waits : Bool) (backoff left : ℕ) (later : List ℕ)
      → backoff ≤ longest_backoff
      → All (λ w. w ≤ longest_backoff) later
      → length later ≤ left
      → All (λ w. w ≤ longest_backoff) (add_wait waits backoff later)
        × (length (add_wait waits backoff later) ≤ suc left)
  unfolding add_wait
  add_wait_short true backoff left later h all le = ((h, all), omega (arith, le))
  add_wait_short false backoff left later h all le = (all, omega (arith, le))

  next_backoff_short :
      (waits : Bool) (backoff : ℕ)
      → backoff ≤ longest_backoff
      → next_backoff waits backoff ≤ longest_backoff
  unfolding next_backoff
  next_backoff_short waits backoff h = ground arith

  verify_loop-AreShort :
      (left : ℕ) (c : g.Conn) (attempt backoff : ℕ)
      → backoff ≤ longest_backoff
      → AreShort left (run left c attempt backoff)
  unfolding verify_loop
  verify_loop-AreShort zero c attempt backoff h = (tt, omega arith)
  verify_loop-AreShort (suc left) c attempt backoff h = elim (run_cases left c attempt backoff) [
    | inl (_, eq) ↦ subst (AreShort (suc left)) (sym eq) (tt, omega arith)
    | inr (inl (_, _, eq)) ↦
        subst (AreShort (suc left)) (sym eq)
          (add_wait_short (ltb 0 attempt) backoff left [] h tt (omega arith))
    | inr (inr (e, on, w, missing, eq)) ↦
        let (all, le) =
          verify_loop-AreShort left (asked c).0 (suc attempt) (next_backoff (ltb 0 attempt) backoff)
            (next_backoff_short (ltb 0 attempt) backoff h) in
        subst (AreShort (suc left)) (sym eq)
          (add_wait_short (ltb 0 attempt) backoff left _ h all le)
  ]

  Answered-missed :
      (attempt left : ℕ) (c : g.Conn) (e : Failure) (waits : List ℕ)
      (out : g.Conn × List ℕ × Result Failure Bool)
      → cut_short attempt ≡ false
      → (asked c).1 ≡ err e
      → is_not_found e ≡ true
      → Answered (suc attempt) left (asked c).0 out
      → Answered attempt (suc left) c (out.0, waits, out.2)
  Answered-missed attempt left c e waits out on w missing
        (inl (n, c2, lt, before, open', eq, final)) =
      inl (
        suc n,
        c2,
        omega (arith, lt),
        missed on w missing before,
        subst (λ m. cut_short m ≡ false) (omega arith) open',
        eq,
        final,
      )
  Answered-missed attempt left c e waits out on w missing (inr (inl (all, eq))) =
      inr (inl (missed on w missing all, eq))
  Answered-missed attempt left c e waits out on w missing (inr (inr (n, lt, before, short, eq))) =
      inr (
        inr (
          suc n,
          omega (arith, lt),
          missed on w missing before,
          subst (λ m. cut_short m ≡ true) (omega arith) short,
          eq,
        ))

  verify_loop-Answered :
      (left : ℕ) (c : g.Conn) (attempt backoff : ℕ)
      → Answered attempt left c (run left c attempt backoff)
  unfolding verify_loop
  verify_loop-Answered zero c attempt backoff = inr (inl (not_yet, refl))
  verify_loop-Answered (suc left) c attempt backoff = elim (run_cases left c attempt backoff) [
    | inl (short, eq) ↦ subst (Answered attempt (suc left) c) (sym eq) (
        inr (
          inr (
            zero,
            omega arith,
            not_yet,
            subst (λ m. cut_short m ≡ true) (omega arith) short,
            refl,
          )))
    | inr (inl (on, final, eq)) ↦ subst (Answered attempt (suc left) c) (sym eq) (
        inl (
          zero,
          c,
          omega arith,
          not_yet,
          subst (λ m. cut_short m ≡ false) (omega arith) on,
          refl,
          final,
        ))
    | inr (inr (e, on, w, missing, eq)) ↦ subst (Answered attempt (suc left) c) (sym eq) (
        Answered-missed attempt left c e
          (add_wait (ltb 0 attempt) backoff (rest left c attempt backoff).1)
          (rest left c attempt backoff) on w missing
          (verify_loop-Answered left (asked c).0 (suc attempt)
            (next_backoff (ltb 0 attempt) backoff)))
  ]

-- With a first backoff of half a second at most, VerifyContent answers with its first attempt that
-- is not answered with NotFound, or says after the last attempt that nothing was found, or ends
-- because the context ended before an attempt behind the first one; no attempt is made behind the
-- end of the context, no wait is above half a second, and there are no more waits than attempts.
pub verify_content-Answered :
    (g : Reads) (c : g.Conn) (fid : ℕ) (expected : List ℕ) (given : VerifyOptions)
    (ended : ℕ → Bool)
    → given.initial_backoff ≤ longest_backoff
    → Answered g fid expected given.compare_content
        (verify_options given).max_attempts
        ended
        0
        (verify_options given).max_attempts
        c
        (verify_content g c fid expected given ended)
      × AreShort g fid expected given.compare_content
          (verify_options given).max_attempts
          ended
          (verify_options given).max_attempts
          (verify_content g c fid expected given ended)
unfolding verify_content verify_options
verify_content-Answered g c fid expected given ended h =
    let attempts : ℕ = (verify_options given).max_attempts in
    let backoff : ℕ = (verify_options given).initial_backoff in
    (
      verify_loop-Answered g fid expected given.compare_content attempts ended attempts c 0 backoff,
      verify_loop-AreShort g fid expected given.compare_content attempts ended attempts c 0 backoff
          (ground arith),
    )
