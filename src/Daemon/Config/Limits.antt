-- ===== src/Daemon/Config/Limits.antt =====
-- internal/daemon/config.go: the limits of a configuration that was loaded.
use bsos.Base.{
  ℕ, ◌*◌, ◌≤◌, ◌<◌, ◌≡◌, Bool, true, false, ◌&&◌, ◌||◌, Option, none, some, ltb, ok, fail_if,
  bind_inv, ok_injective, subst, Bool-cases, inl, inr, arith,
}
use bsos.Daemon.Config.{
  ConfigError, min_above_max, not_positive, negative, not_probability, not_ratio, ServicePart,
  TrimPart, load_service, load_trim, size_or, checked_duration, duration_or, seconds, Texts, Config,
  FileConfig, is_positive, is_natural, checked, float_or, load_config,
}

checked-good :
    (good : ℕ → Bool) (e : ConfigError) (given : Option ℕ) (default x : ℕ)
    → good default ≡ true
    → checked good e given default ≡ ok x
    → good x ≡ true
unfolding checked
checked-good good e none default x h eq = subst (λ i. good i ≡ true) (ok_injective eq) h
checked-good good e (some y) default x h eq = elim (Bool-cases (good y)) [
  | inl fine ↦ subst (λ i. good i ≡ true) (ok_injective (rw (fine, checked) at eq)) fine
  | inr bad ↦ absurd (ground (arith, rw (bad, checked) at eq))
]

in_order :
    (least most : ℕ) (u : Unit {0})
    → fail_if (ltb 0 most && ltb most least) min_above_max ≡ ok u
    → 0 < most
    → least ≤ most
in_order least most u h pos = ground (arith, h, pos)

module _ (t : Texts) where
  float_or-good :
      (bad : t.Float → Bool) (e : ConfigError) (given : Option t.Float) (default p : t.Float)
      → bad default ≡ false
      → float_or t bad e given default ≡ ok p
      → bad p ≡ false
  unfolding float_or
  float_or-good bad e none default p h eq = subst (λ i. bad i ≡ false) (ok_injective eq) h
  float_or-good bad e (some y) default p h eq = elim (Bool-cases (bad y)) [
    | inr fine ↦ subst (λ i. bad i ≡ false) (ok_injective (rw (fine, float_or) at eq)) fine
    | inl wrong ↦ absurd (ground (arith, rw (wrong, float_or) at eq))
  ]

  abbrev IsServiceChecked : ServicePart t → Type 0
  IsServiceChecked c =
      (is_positive c.write_dispatch_concurrency ≡ true)
      × (is_natural c.small_file_pow2 ≡ true)
      × ((t.at_most_zero c.chd_target_p || t.above_one c.chd_target_p) ≡ false)

  abbrev IsTrimChecked : TrimPart t → Type 0
  IsTrimChecked c =
      (is_natural c.trim_min_file_count ≡ true)
      × ((t.below_zero c.trim_threshold_ratio || t.above_one c.trim_threshold_ratio) ≡ false)
      × (0 < c.trim_max_threshold_bytes → c.trim_min_threshold_bytes ≤ c.trim_max_threshold_bytes)

  -- The limits that LoadConfig tests. Those of the durations are tested before their products wrap.
  abbrev IsWithinLimits : Config t → Type 0
  IsWithinLimits c =
      (is_positive c.write_dispatch_concurrency ≡ true)
      × (is_natural c.small_file_pow2 ≡ true)
      × ((t.at_most_zero c.chd_target_p || t.above_one c.chd_target_p) ≡ false)
      × (is_natural c.trim_min_file_count ≡ true)
      × ((t.below_zero c.trim_threshold_ratio || t.above_one c.trim_threshold_ratio) ≡ false)
      × (0 < c.trim_max_threshold_bytes → c.trim_min_threshold_bytes ≤ c.trim_max_threshold_bytes)

  load_service-IsServiceChecked :
      (d : Config t) (file : FileConfig t) (c : ServicePart t)
      → IsWithinLimits d
      → load_service t d file ≡ ok c
      → IsServiceChecked c
  unfolding load_service
  load_service-IsServiceChecked d file c (conc, pow2, prob, count, ratio, order) h =
      let (max_put, _, h1) = bind_inv (size_or t file.max_put d.max_put_bytes) _ c h in
      let (stall, _, h2) =
        bind_inv
          (checked_duration (1000 * 1000) file.reservation_stall_timeout_ms
            d.reservation_stall_timeout)
          _ c h1 in
      let (fanout, _, h3) =
        bind_inv
          (checked_duration (1000 * 1000) file.pool_gate_fanout_timeout_ms
            d.pool_gate_fanout_timeout)
          _ c h2 in
      let (conc', e4, h4) =
        bind_inv
          (checked is_positive not_positive file.write_dispatch_concurrency
            d.write_dispatch_concurrency)
          _ c h3 in
      let (pow2', e5, h5) =
        bind_inv (checked is_natural negative file.small_file_pow2 d.small_file_pow2) _ c h4 in
      let (prob', e6, h6) =
        bind_inv
          (float_or t (λ p. t.at_most_zero p || t.above_one p) not_probability file.chd_target_p
            d.chd_target_p)
          _ c h5 in
      subst IsServiceChecked (ok_injective h6) (
        checked-good _ _ _ _ conc' conc e4,
        checked-good _ _ _ _ pow2' pow2 e5,
        float_or-good _ _ _ _ prob' prob e6,
      )

  load_trim-IsTrimChecked :
      (d : Config t) (file : FileConfig t) (c : TrimPart t)
      → IsWithinLimits d
      → load_trim t d file ≡ ok c
      → IsTrimChecked c
  unfolding load_trim
  load_trim-IsTrimChecked d file c (conc, pow2, prob, count, ratio, order) h =
      let (text, _, h1) = bind_inv (duration_or t file.trim_interval d.trim_interval) _ c h in
      let (interval, _, h2) =
        bind_inv (checked_duration seconds file.trim_interval_seconds text) _ c h1 in
      let (least, _, h3) =
        bind_inv (size_or t file.trim_min_threshold_bytes d.trim_min_threshold_bytes) _ c h2 in
      let (most, _, h4) =
        bind_inv (size_or t file.trim_max_threshold_bytes d.trim_max_threshold_bytes) _ c h3 in
      let (u, e11, h5) = bind_inv (fail_if (ltb 0 most && ltb most least) min_above_max) _ c h4 in
      let (count', e12, h6) =
        bind_inv (checked is_natural negative file.trim_min_file_count d.trim_min_file_count) _ c
          h5 in
      let (ratio', e13, h7) =
        bind_inv
          (float_or t (λ x. t.below_zero x || t.above_one x) not_ratio file.trim_threshold_ratio
            d.trim_threshold_ratio)
          _ c h6 in
      subst IsTrimChecked (ok_injective h7) (
        checked-good _ _ _ _ count' count e12,
        float_or-good _ _ _ _ ratio' ratio e13,
        in_order _ _ u e11,
      )

  pub load_config-IsWithinLimits :
      (d : Config t) (file : FileConfig t) (c : Config t)
      → IsWithinLimits d
      → load_config t d file ≡ ok c
      → IsWithinLimits c
  unfolding load_config
  load_config-IsWithinLimits d file c good h =
      let (s, e1, h1) = bind_inv (load_service t d file) _ c h in
      let (m, e2, h2) = bind_inv (load_trim t d file) _ c h1 in
      let (conc, pow2, prob) = load_service-IsServiceChecked d file s good e1 in
      let (count, ratio, order) = load_trim-IsTrimChecked d file m good e2 in
      subst IsWithinLimits (ok_injective h2) (conc, pow2, prob, count, ratio, order)
