-- ===== src/Driver/CircuitBreaker.antt =====
-- The circuit breaker of internal/driver/circuit_breaker.go. Each call runs to its end before the next;
-- the time that a call reads from the clock is its argument.
use aforo_nextgen_loadgen.Base.{
  ℕ, zero, suc, ◌+◌, ◌-◌, ◌%◌, ◌^◌, Bool, true, false, ◌&&◌, Option, none, some, List, [], ◌∷◌, map,
  leb, ltb, if◌then◌else◌,
}
use aforo_nextgen_loadgen.Base.Floats.{Floats}
use aforo_nextgen_loadgen.Driver.Window.{
  Bucket, empty_bucket, second, new_buckets, touch_bucket, tally,
}
pub mod Refinement
pub mod Probing

pub data CircuitState : Type 0 where
  state_closed state_half_open state_open : CircuitState

-- Durations are nanoseconds; a number that is not positive is zero here.
pub record CircuitBreakerConfig (F : Type 0) : Type 0 where
  pub error_rate_threshold : F
  pub min_samples : ℕ
  pub window : ℕ
  pub open_duration : ℕ
  pub half_open_probes : ℕ

-- The atomic fields: `half_success` is the bits of an int32.
pub record Switch : Type 0 where
  pub state : CircuitState
  pub opened_at : ℕ
  pub half_success : ℕ

pub record CircuitBreaker (F : Type 0) : Type 0 where
  pub cfg : CircuitBreakerConfig F
  pub switch : Switch
  pub buckets : List Bucket

unfoldable pub or_default : ℕ → ℕ → ℕ
or_default zero d = d
or_default (suc n) d = suc n

-- atomic.Int32.Add(1).
unfoldable pub add_int32 : ℕ → ℕ
add_int32 n = (n + 1) % 2 ^ 32

-- int(n) >= k for the bits n of an int32 and a k that is positive.
unfoldable pub int32_reaches : ℕ → ℕ → Bool
int32_reaches n k = ltb n (2 ^ 31) && leb k n

unfoldable pub trip : Switch → ℕ → Switch
trip s now = record s { state = state_open; opened_at = now }

-- What Allow does to the switch, and what it answers: now.Sub(openedAt) >= OpenDuration, with the
-- difference moved to the other side.
unfoldable pub ask : {F : Type 0} → CircuitBreakerConfig F → Switch → ℕ → Bool × Switch
ask cfg s now = elim s.state [
  | state_closed ↦ (true, s)
  | state_half_open ↦ (true, s)
  | state_open ↦
      if leb (s.opened_at + cfg.open_duration) now
      then (true, record s { state = state_half_open; half_success = 0 })
      else (false, s)
]

-- Record on a breaker that is half open, and whether it resets the history.
unfoldable pub probe : {F : Type 0} → CircuitBreakerConfig F → Switch → ℕ → Bool → Switch × Bool
unfolding add_int32 int32_reaches trip
probe cfg s now false = (trip s now, false)
probe cfg s now true =
    let n = add_int32 s.half_success in
    if int32_reaches n cfg.half_open_probes
    then (record s { state = state_closed; half_success = n }, true)
    else (record s { half_success = n }, false)

module _ (fl : Floats) where
  unfoldable pub new_config : CircuitBreakerConfig fl.Float → CircuitBreakerConfig fl.Float
  unfolding or_default
  new_config cfg = record {
    error_rate_threshold =
        (if fl.le cfg.error_rate_threshold (fl.of_int 0)
          then fl.quot (fl.of_int 1) (fl.of_int 2)
          else cfg.error_rate_threshold);
    min_samples = or_default cfg.min_samples 20;
    window = or_default cfg.window 60000000000;
    open_duration = or_default cfg.open_duration 30000000000;
    half_open_probes = or_default cfg.half_open_probes 5;
  }

  unfoldable pub new_circuit_breaker : CircuitBreakerConfig fl.Float → CircuitBreaker fl.Float
  unfolding new_config new_buckets
  new_circuit_breaker given =
      let cfg = new_config given in
      record {
        cfg = cfg;
        switch = record { state = state_closed; opened_at = 0; half_success = 0 };
        buckets = new_buckets cfg.window;
      }

  unfoldable pub allow : CircuitBreaker fl.Float → ℕ → Bool × CircuitBreaker fl.Float
  unfolding ask
  allow cb now = let (ok, s) = ask cb.cfg cb.switch now in (ok, record cb { switch = s })

  -- float64(fail) / float64(total) >= threshold, once there are samples enough.
  unfoldable pub is_tripped : CircuitBreakerConfig fl.Float → ℕ × ℕ → Bool
  is_tripped cfg (succ, fail) =
      leb cfg.min_samples (succ + fail)
      && fl.le cfg.error_rate_threshold (fl.quot (fl.of_int fail) (fl.of_int (succ + fail)))

  -- Record after the tally, and whether it resets the history.
  unfoldable pub react : CircuitBreakerConfig fl.Float → Switch → ℕ → Bool → ℕ × ℕ → Switch × Bool
  unfolding probe is_tripped trip
  react cfg s now success counts = elim s.state [
    | state_half_open ↦ probe cfg s now success
    | state_open ↦ (s, false)
    | state_closed ↦ (if is_tripped cfg counts then trip s now else s, false)
  ]

  unfoldable pub record_outcome : CircuitBreaker fl.Float → ℕ → Bool → CircuitBreaker fl.Float
  unfolding react
  record_outcome cb now success =
      let touched = touch_bucket cb.buckets now success in
      let (s, reset) = react cb.cfg cb.switch now success (tally cb.cfg.window now touched) in
      record cb {
        switch = s;
        buckets = (if reset then map (λ b. empty_bucket) touched else touched);
      }

  unfoldable pub force_open : CircuitBreaker fl.Float → ℕ → CircuitBreaker fl.Float
  unfolding trip
  force_open cb now = record cb { switch = trip cb.switch now }
