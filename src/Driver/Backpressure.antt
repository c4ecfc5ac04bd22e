-- ===== src/Driver/Backpressure.antt =====
-- The backpressure controller of internal/driver/backpressure.go. Each call runs to its end before the
-- next; the time that a call reads from the clock is its argument.
use aforo_nextgen_loadgen.Base.{
  ℕ, zero, suc, ◌+◌, Bool, true, false, ◌&&◌, ◌||◌, not, List, [], ◌∷◌, ◌==◌, leb, ltb,
  if◌then◌else◌,
}
use aforo_nextgen_loadgen.Base.Floats.{Floats}
use aforo_nextgen_loadgen.Driver.Window.{Bucket, new_buckets, touch_bucket, tally}
pub mod Release

-- Durations are nanoseconds; a number that is not positive is zero here.
pub record BackpressureConfig (F : Type 0) : Type 0 where
  pub error_rate_threshold : F
  pub window : ℕ
  pub slow_multiplier : F
  pub recover_delay : ℕ
  pub min_samples : ℕ

pub record BackpressureController (F : Type 0) : Type 0 where
  pub cfg : BackpressureConfig F
  pub multiplier : F
  pub active : Bool
  pub below_since : ℕ
  pub buckets : List Bucket

unfoldable pub or_given : ℕ → ℕ → ℕ
or_given zero d = d
or_given (suc n) d = suc n

module _ (fl : Floats) where
  -- m / n
  unfoldable pub ratio : ℕ → ℕ → fl.Float
  ratio m n = fl.quot (fl.of_int m) (fl.of_int n)

  unfoldable pub new_config : BackpressureConfig fl.Float → BackpressureConfig fl.Float
  unfolding or_given ratio
  new_config cfg = record {
    error_rate_threshold =
        (if fl.le cfg.error_rate_threshold (fl.of_int 0)
          then ratio 5 100
          else cfg.error_rate_threshold);
    window = or_given cfg.window 30000000000;
    slow_multiplier =
        (if fl.le cfg.slow_multiplier (fl.of_int 0) || fl.le (fl.of_int 1) cfg.slow_multiplier
          then ratio 1 2
          else cfg.slow_multiplier);
    recover_delay = or_given cfg.recover_delay 30000000000;
    min_samples = or_given cfg.min_samples 20;
  }

  unfoldable pub new_backpressure : BackpressureConfig fl.Float → BackpressureController fl.Float
  unfolding new_config new_buckets
  new_backpressure given =
      let cfg = new_config given in
      record {
        cfg = cfg;
        multiplier = fl.of_int 1;
        active = false;
        below_since = 0;
        buckets = new_buckets cfg.window;
      }

  -- The rate has reached the threshold.
  unfoldable pub throttle : BackpressureController fl.Float → BackpressureController fl.Float
  throttle bp =
      if bp.active
      then record bp { below_since = 0 }
      else record bp { below_since = 0; active = true; multiplier = bp.cfg.slow_multiplier }

  -- The rate is below the threshold.
  unfoldable pub recover : BackpressureController fl.Float → ℕ → BackpressureController fl.Float
  recover bp now =
      let first = if bp.below_since == 0 then now else bp.below_since in
      if bp.active && ltb 0 first && leb (first + bp.cfg.recover_delay) now
      then record bp { below_since = first; active = false; multiplier = fl.of_int 1 }
      else record bp { below_since = first }

  -- Record after the tally.
  unfoldable pub weigh :
      BackpressureController fl.Float → ℕ → ℕ × ℕ → BackpressureController fl.Float
  unfolding throttle recover ratio
  weigh bp now (succ, fail) =
      if ltb (succ + fail) bp.cfg.min_samples
      then bp
      else if fl.le bp.cfg.error_rate_threshold (ratio fail (succ + fail))
      then throttle bp
      else recover bp now

  unfoldable pub record_outcome :
      BackpressureController fl.Float → ℕ → Bool → BackpressureController fl.Float
  unfolding weigh
  record_outcome bp now success =
      let touched = touch_bucket bp.buckets now success in
      weigh (record bp { buckets = touched }) now (tally bp.cfg.window now touched)
