-- ===== src/Client/Jump/Retry.antt =====
-- pkg/client/client.go: the outcomes of PutWithJumpRetry.
use bsos.Base.{
  ℕ, zero, suc, ◌+◌, ◌≤◌, ◌<◌, ◌≡◌, refl, sym, ap, ◌∙◌, subst, ltb, ◌⊎◌, true, false, List, Option,
  none, some, Bool-cases, Option-cases, inl, inr, arith,
}
use bsos.Daemon.Stream.{Stream}
use bsos.Daemon.Server.{PutHeader}
use bsos.Client.{Failure, jump_exhausted, is_conflict}
use bsos.Client.Jump.{
  JumpResult, reader, jump_data, jump_header, jump_loop, put_with_jump_retry_collision, jumped,
  exhausted,
}

module _ (hash : List ℕ → ℕ) {Conn : Type 0}
    (put : Conn → PutHeader → Stream → Conn × Option Failure) (bs : List ℕ) (fid : ℕ) where
  -- The Put with one jump code.
  abbrev pub attempt : Conn → ℕ → Conn × Option Failure
  attempt c code = put c (jump_header hash bs fid code) (reader (jump_data bs code))

  -- From one state to another, the codes behind `a` up to `b` were tried, and each met a conflict.
  pub data Collided : ℕ → Conn → ℕ → Conn → Type 0 where
    untried : {a : ℕ} {c : Conn} → Collided a c a c
    tried :
        {a b : ℕ} {c c' : Conn} {e : Failure}
        → (attempt c (suc a)).1 ≡ some e
        → is_conflict e ≡ true
        → Collided (suc a) (attempt c (suc a)).0 b c'
        → Collided a c b c'

  -- Behind collisions up to some code, the attempt with the next one ended the loop.
  abbrev EndedAt : ℕ → Conn → ℕ → JumpResult → Conn × Option Failure → Type 0
  EndedAt a c max_jumps result last =
      (j : ℕ) × (c' : Conn) × (j < max_jumps)
      × Collided a c j c'
      × (attempt c' (suc j) ≡ last)
      × (result ≡ jumped hash bs fid (suc j))

  -- The three ways out of the loop over the codes behind `a` up to `max_jumps`.
  abbrev pub Outcome : ℕ → Conn → ℕ → Conn × JumpResult × Option Failure → Type 0
  Outcome a c max_jumps (c', result, none) = EndedAt a c max_jumps result (c', none)
  Outcome a c max_jumps (c', result, some e) =
      (Collided a c max_jumps c' × (result ≡ exhausted fid max_jumps) × (e ≡ jump_exhausted))
      ⊎ (EndedAt a c max_jumps result (c', some e) × (is_conflict e ≡ false))

  Outcome-tried :
      (a : ℕ) (c : Conn) (max_jumps : ℕ) (e : Failure) (out : Conn × JumpResult × Option Failure)
      → (attempt c (suc a)).1 ≡ some e
      → is_conflict e ≡ true
      → Outcome (suc a) (attempt c (suc a)).0 max_jumps out
      → Outcome a c max_jumps out
  Outcome-tried a c max_jumps e (c', result, none) refused conflict
        (j, c2, lt, before, put_eq, eq) =
      (j, c2, lt, tried refused conflict before, put_eq, eq)
  Outcome-tried a c max_jumps e (c', result, some x) refused conflict (inl (all, eq, last)) =
      inl (tried refused conflict all, eq, last)
  Outcome-tried a c max_jumps e (c', result, some x) refused conflict
        (inr ((j, c2, lt, before, put_eq, eq), no_conflict)) =
      inr ((j, c2, lt, tried refused conflict before, put_eq, eq), no_conflict)

  module _ (left a : ℕ) (c : Conn) (max_jumps : ℕ) where
    abbrev loop : Conn × JumpResult × Option Failure
    loop = jump_loop hash put (suc left) c bs fid (suc a) max_jumps

    abbrev done : Conn × Option Failure
    done = attempt c (suc a)

    jump_loop_stored : done.1 ≡ none → loop ≡ (done.0, jumped hash bs fid (suc a), none)
    unfolding jump_loop
    jump_loop_stored w = rw (w, jump_loop) refl

    jump_loop_failed :
        (e : Failure)
        → done.1 ≡ some e
        → is_conflict e ≡ false
        → loop ≡ (done.0, jumped hash bs fid (suc a), some e)
    unfolding jump_loop
    jump_loop_failed e w other = rw (w, other, jump_loop) refl

    jump_loop_collided :
        (e : Failure)
        → done.1 ≡ some e
        → is_conflict e ≡ true
        → loop ≡ jump_loop hash put left done.0 bs fid (suc (suc a)) max_jumps
    unfolding jump_loop
    jump_loop_collided e w conflict = rw (w, conflict, jump_loop) refl

  jump_loop-Outcome :
      (left a : ℕ) (c : Conn) (max_jumps : ℕ)
      → a + left ≡ max_jumps
      → Outcome a c max_jumps (jump_loop hash put left c bs fid (suc a) max_jumps)
  unfolding jump_loop
  jump_loop-Outcome zero a c max_jumps h =
      let all : a ≡ max_jumps = omega (arith, h) in
      inl (subst (λ m. Collided a c m c) all untried, refl, refl)
  jump_loop-Outcome (suc left) a c max_jumps h =
      let first = done left a c max_jumps in
      let lt : a < max_jumps = omega (arith, h) in
      elim (Option-cases first.1) [
        | inl w ↦
            subst (Outcome a c max_jumps) (sym (jump_loop_stored left a c max_jumps w))
              (a, c, lt, untried, ap (λ o. (first.0, o)) w, refl)
        | inr (e, w) ↦ elim (Bool-cases (is_conflict e)) [
          | inr other ↦
              subst (Outcome a c max_jumps) (sym (jump_loop_failed left a c max_jumps e w other))
                (inr ((a, c, lt, untried, ap (λ o. (first.0, o)) w, refl), other))
          | inl conflict ↦
              subst (Outcome a c max_jumps)
                (sym (jump_loop_collided left a c max_jumps e w conflict))
                (Outcome-tried a c max_jumps e _ w conflict
                  (jump_loop-Outcome left (suc a) first.0 max_jumps (omega (arith, h))))
        ]
      ]

  -- The jump codes are tried in order, from 1 to the limit, until one does not meet a conflict: a
  -- success is the attempt with the code behind those that met one and says which, an error that is
  -- no conflict ends the loop likewise, and the loop is exhausted only if all codes met a conflict.
  pub put_with_jump_retry_collision-Outcome :
      (c : Conn) (max_jumps : ℕ)
      → Outcome 0 c max_jumps (put_with_jump_retry_collision hash put c bs fid max_jumps)
  unfolding put_with_jump_retry_collision
  put_with_jump_retry_collision-Outcome c max_jumps =
      jump_loop-Outcome max_jumps 0 c max_jumps (omega arith)

  -- An attempt is answered with a success or a conflict only.
  abbrev Answers : ℕ → Type 0
  Answers code =
      (c : Conn)
      → ((attempt c code).1 ≡ none)
        ⊎ ((e : Failure) × ((attempt c code).1 ≡ some e) × (is_conflict e ≡ true))

  jump_loop_lives :
      (left a k : ℕ) (c : Conn) (max_jumps : ℕ)
      → a < k
      → k ≤ a + left
      → ((code : ℕ) → code < k → Answers code)
      → ((c' : Conn) → (attempt c' k).1 ≡ none)
      → (j : ℕ) × (a < j)
        × (j ≤ k)
        × ((jump_loop hash put left c bs fid (suc a) max_jumps).1 ≡ jumped hash bs fid j)
        × ((jump_loop hash put left c bs fid (suc a) max_jumps).2 ≡ none)
  jump_loop_lives zero a k c max_jumps lt le answers free = absurd (omega (arith, lt, le))
  jump_loop_lives (suc left) a k c max_jumps lt le answers free =
      let first = done left a c max_jumps in
      elim (Option-cases first.1) [
        | inl w ↦ (
          suc a,
          omega arith,
          omega (arith, lt),
          ap (λ out. out.1) (jump_loop_stored left a c max_jumps w),
          ap (λ out. out.2) (jump_loop_stored left a c max_jumps w),
        )
        | inr (e, w) ↦ elim (Bool-cases (ltb (suc a) k)) [
          | inr last ↦
              let at_k : suc a ≡ k = ground (arith, last, lt) in
              absurd (ground (arith, w, subst (λ i. (attempt c i).1 ≡ none) (sym at_k) (free c)))
          | inl more ↦ elim (answers (suc a) (ground (arith, more)) c) [
            | inl stored ↦ absurd (ground (arith, w, stored))
            | inr (x, v, conflict) ↦
                let (j, above, below, result, fine) =
                  jump_loop_lives left (suc a) k first.0 max_jumps (ground (arith, more))
                    (omega (arith, le)) answers free in
                let step = jump_loop_collided left a c max_jumps x v conflict in
                (
                  j,
                  omega (arith, above),
                  below,
                  ap (λ out. out.1) step ∙ result,
                  ap (λ out. out.2) step ∙ fine,
                )
          ]
        ]
      ]

  -- Where each attempt with a code below k is answered with a success or a conflict, and the
  -- attempt with k, one of the codes to try, succeeds in every state, the content is stored with
  -- one of the codes up to k.
  pub put_with_jump_retry_collision_lives :
      (k : ℕ) (c : Conn) (max_jumps : ℕ)
      → 0 < k
      → k ≤ max_jumps
      → ((code : ℕ) → code < k → Answers code)
      → ((c' : Conn) → (attempt c' k).1 ≡ none)
      → (j : ℕ) × (0 < j)
        × (j ≤ k)
        × ((put_with_jump_retry_collision hash put c bs fid max_jumps).1 ≡ jumped hash bs fid j)
        × ((put_with_jump_retry_collision hash put c bs fid max_jumps).2 ≡ none)
  unfolding put_with_jump_retry_collision
  put_with_jump_retry_collision_lives k c max_jumps pos le answers free =
      jump_loop_lives max_jumps 0 k c max_jumps pos (omega (arith, le)) answers free
