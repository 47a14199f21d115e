-- ===== src/Daemon/Config.antt =====
-- internal/daemon/config.go. A text is its bytes; strings.TrimSpace and ToUpper, strconv.ParseUint,
-- time.ParseDuration and the expansion of the home directory are parameters, and the TOML parser's
-- result is the argument. An int64 is its 64 bits. The tests on a float64 are parameters too.
pub mod Limits
use bsos.Base.{
  ℕ, zero, suc, ◌+◌, ◌-◌, ◌*◌, ◌^◌, Bool, true, false, not, ◌&&◌, ◌||◌, List, [], ◌∷◌, Option, none,
  some, length, take, drop, ltb, leb, ◌==◌, mul64, if◌then◌else◌, Result, ok, err, ◌>>=◌, ◌>>◌,
  fail_if,
}
use bsos.Daemon.PackedTable.{same_bytes}

pub data ConfigError : Type 0 where
  empty_size bad_number bad_duration not_positive negative : ConfigError
  not_probability not_ratio min_above_max : ConfigError

-- What the source does with the texts and the floats that it reads.
pub record Texts : Type 1 where
  pub Float : Type 0
  pub at_most_zero : Float → Bool
  pub below_zero : Float → Bool
  pub above_one : Float → Bool
  pub trim_space : List ℕ → List ℕ
  pub to_upper : List ℕ → List ℕ
  pub parse_uint : List ℕ → Option ℕ
  pub parse_duration : List ℕ → Option ℕ
  pub expand_home : List ℕ → List ℕ

-- The numbers of an int64 that are positive, and those that are not negative.
abbrev pub is_positive : ℕ → Bool
is_positive x = ltb 0 x && ltb x (2 ^ 63)

abbrev pub is_natural : ℕ → Bool
is_natural x = ltb x (2 ^ 63)

unfoldable pub has_suffix : List ℕ → List ℕ → Bool
has_suffix text suffix =
    leb (length suffix) (length text) && same_bytes (drop (length text - length suffix) text) suffix

unfoldable pub trim_suffix : List ℕ → List ℕ → List ℕ
trim_suffix text suffix =
    if has_suffix text suffix then take (length text - length suffix) text else text

-- A unit is the letter with or without a B behind it.
abbrev letter_b : ℕ
letter_b = 66

unfoldable pub has_unit : List ℕ → ℕ → Bool
has_unit text letter = has_suffix text (letter ∷ letter_b ∷ []) || has_suffix text (letter ∷ [])

unfoldable pub trim_unit : List ℕ → ℕ → List ℕ
trim_unit text letter = trim_suffix (trim_suffix text (letter ∷ letter_b ∷ [])) (letter ∷ [])

-- The multiplier and the number's text, by the letters G, M, K and B.
unfoldable pub split_size : List ℕ → ℕ × List ℕ
split_size text =
    if has_unit text 71
    then (1024 * 1024 * 1024, trim_unit text 71)
    else if has_unit text 77
    then (1024 * 1024, trim_unit text 77)
    else if has_unit text 75
    then (1024, trim_unit text 75)
    else if has_suffix text (letter_b ∷ [])
    then (1, trim_suffix text (letter_b ∷ []))
    else (1, text)

-- An integer of the file, tested by `good` where it is there.
unfoldable pub checked : (ℕ → Bool) → ConfigError → Option ℕ → ℕ → Result ConfigError ℕ
checked good e none default = ok default
checked good e (some x) default = if good x then ok x else err e

abbrev pub seconds : ℕ
seconds = 1000 * 1000 * 1000

-- A duration given as a number of units: the product wraps.
unfoldable pub checked_duration : ℕ → Option ℕ → ℕ → Result ConfigError ℕ
checked_duration unit none default = ok default
checked_duration unit (some x) default =
    if is_positive x then ok (mul64 x unit) else err not_positive

module _ (t : Texts) where
  open t use {
    Float, at_most_zero, below_zero, above_one, trim_space, to_upper, parse_uint, parse_duration,
    expand_home,
  }

  unfoldable pub parse_size : List ℕ → Result ConfigError ℕ
  parse_size input =
      let text = trim_space (to_upper input) in
      let (multiplier, number) = split_size text in
      if length text == 0 then err empty_size else elim (parse_uint (trim_space number)) [
        | none ↦ err bad_number
        | some value ↦ ok (mul64 value multiplier)
      ]

  pub record Config : Type 0 where
    pub pan_path : List ℕ
    pub grpc_listen : List ℕ
    pub max_put_bytes : ℕ
    pub reservation_stall_timeout : ℕ
    pub pool_gate_fanout_timeout : ℕ
    pub write_dispatch_concurrency : ℕ
    pub small_file_pow2 : ℕ
    pub chd_target_p : Float
    pub zram_snapshot_dir : List ℕ
    pub trim_interval : ℕ
    pub trim_min_threshold_bytes : ℕ
    pub trim_max_threshold_bytes : ℕ
    pub trim_min_file_count : ℕ
    pub trim_threshold_ratio : Float
    pub trim_temp_dir : List ℕ

  pub record FileConfig : Type 0 where
    pub pan_path : List ℕ
    pub grpc_listen : List ℕ
    pub max_put : List ℕ
    pub reservation_stall_timeout_ms : Option ℕ
    pub pool_gate_fanout_timeout_ms : Option ℕ
    pub write_dispatch_concurrency : Option ℕ
    pub small_file_pow2 : Option ℕ
    pub chd_target_p : Option Float
    pub zram_snapshot_dir : List ℕ
    pub trim_interval : List ℕ
    pub trim_interval_seconds : Option ℕ
    pub trim_min_threshold_bytes : List ℕ
    pub trim_max_threshold_bytes : List ℕ
    pub trim_min_file_count : Option ℕ
    pub trim_threshold_ratio : Option Float
    pub trim_temp_dir : List ℕ

  -- A text of the file, trimmed, where there is more than blanks of it.
  unfoldable text_or : List ℕ → List ℕ → List ℕ
  text_or given default = if length (trim_space given) == 0 then default else trim_space given

  unfoldable pub size_or : List ℕ → ℕ → Result ConfigError ℕ
  size_or given default = if length (trim_space given) == 0 then ok default else parse_size given

  pub float_or : (Float → Bool) → ConfigError → Option Float → Float → Result ConfigError Float
  float_or bad e none default = ok default
  float_or bad e (some p) default = if bad p then err e else ok p

  unfoldable pub duration_or : List ℕ → ℕ → Result ConfigError ℕ
  duration_or given default =
      if length (trim_space given) == 0
      then ok default
      else elim (parse_duration (trim_space given)) [
        | none ↦ err bad_duration
        | some d ↦ if is_positive d then ok d else err not_positive
      ]

  -- The numbers of the configuration, in two parts.
  pub record ServicePart : Type 0 where
    pub max_put_bytes : ℕ
    pub reservation_stall_timeout : ℕ
    pub pool_gate_fanout_timeout : ℕ
    pub write_dispatch_concurrency : ℕ
    pub small_file_pow2 : ℕ
    pub chd_target_p : Float

  pub record TrimPart : Type 0 where
    pub trim_interval : ℕ
    pub trim_min_threshold_bytes : ℕ
    pub trim_max_threshold_bytes : ℕ
    pub trim_min_file_count : ℕ
    pub trim_threshold_ratio : Float

  pub load_service : Config → FileConfig → Result ConfigError ServicePart
  load_service d file = do
    max_put_bytes ← size_or file.max_put d.max_put_bytes
    stall ←
        checked_duration (1000 * 1000) file.reservation_stall_timeout_ms d.reservation_stall_timeout
    fanout ←
        checked_duration (1000 * 1000) file.pool_gate_fanout_timeout_ms d.pool_gate_fanout_timeout
    concurrency ←
        checked is_positive not_positive file.write_dispatch_concurrency
          d.write_dispatch_concurrency
    pow2 ← checked is_natural negative file.small_file_pow2 d.small_file_pow2
    p ←
        float_or (λ p. at_most_zero p || above_one p) not_probability file.chd_target_p
          d.chd_target_p
    ok (record {
      max_put_bytes = max_put_bytes;
      reservation_stall_timeout = stall;
      pool_gate_fanout_timeout = fanout;
      write_dispatch_concurrency = concurrency;
      small_file_pow2 = pow2;
      chd_target_p = p;
    })

  pub load_trim : Config → FileConfig → Result ConfigError TrimPart
  load_trim d file = do
    interval_text ← duration_or file.trim_interval d.trim_interval
    interval ← checked_duration seconds file.trim_interval_seconds interval_text
    min_bytes ← size_or file.trim_min_threshold_bytes d.trim_min_threshold_bytes
    max_bytes ← size_or file.trim_max_threshold_bytes d.trim_max_threshold_bytes
    fail_if (ltb 0 max_bytes && ltb max_bytes min_bytes) min_above_max
    file_count ← checked is_natural negative file.trim_min_file_count d.trim_min_file_count
    ratio ←
        float_or (λ r. below_zero r || above_one r) not_ratio file.trim_threshold_ratio
          d.trim_threshold_ratio
    ok (record {
      trim_interval = interval;
      trim_min_threshold_bytes = min_bytes;
      trim_max_threshold_bytes = max_bytes;
      trim_min_file_count = file_count;
      trim_threshold_ratio = ratio;
    })

  abbrev config_of : Config → FileConfig → ServicePart → TrimPart → Config
  config_of d file s m = record {
    pan_path = text_or file.pan_path d.pan_path;
    grpc_listen = text_or file.grpc_listen d.grpc_listen;
    max_put_bytes = s.max_put_bytes;
    reservation_stall_timeout = s.reservation_stall_timeout;
    pool_gate_fanout_timeout = s.pool_gate_fanout_timeout;
    write_dispatch_concurrency = s.write_dispatch_concurrency;
    small_file_pow2 = s.small_file_pow2;
    chd_target_p = s.chd_target_p;
    zram_snapshot_dir =
        if length file.zram_snapshot_dir == 0
        then d.zram_snapshot_dir
        else expand_home (trim_space file.zram_snapshot_dir);
    trim_interval = m.trim_interval;
    trim_min_threshold_bytes = m.trim_min_threshold_bytes;
    trim_max_threshold_bytes = m.trim_max_threshold_bytes;
    trim_min_file_count = m.trim_min_file_count;
    trim_threshold_ratio = m.trim_threshold_ratio;
    trim_temp_dir = text_or file.trim_temp_dir d.trim_temp_dir;
  }

  -- LoadConfig behind the reading of the file; `d` is DefaultConfig.
  pub load_config : Config → FileConfig → Result ConfigError Config
  load_config d file = do s ← load_service d file; m ← load_trim d file; ok (config_of d file s m)
