-- ===== src/Examples/Driver.antt =====
-- A circuit breaker and a backpressure controller with windows of two seconds.
use aforo_nextgen_loadgen.Base.{
  ℕ, ◌*◌, ◌/◌, ◌<◌, ◌≡◌, refl, true, false, List, [], ◌∷◌, All, arith, length,
}
use aforo_nextgen_loadgen.Examples.Fractions.{fractions}
use aforo_nextgen_loadgen.Driver.Window.{empty_bucket, second, new_buckets, tally}
use aforo_nextgen_loadgen.Driver.Window.Shares.{Event, recent}
use aforo_nextgen_loadgen.Driver.Window.Recent.{touch_all, tally-recent}
use aforo_nextgen_loadgen.Driver.CircuitBreaker.{
  state_closed, state_half_open, state_open, CircuitBreakerConfig, CircuitBreaker,
  new_circuit_breaker, new_config, or_default, allow,
}
use aforo_nextgen_loadgen.Driver.CircuitBreaker.Refinement.{
  Call, allows, records, observe, ideal_observe, observe-ideal_observe,
}
use aforo_nextgen_loadgen.Driver.CircuitBreaker.Probing.{
  successes, after, IsRefusal, probing_closes, open_refuses,
}
use aforo_nextgen_loadgen.Driver.Backpressure.{BackpressureConfig, BackpressureController}
use aforo_nextgen_loadgen.Driver.Backpressure.Release.{record_all, held_for_delay}

abbrev three : List Event
three =
    record { at = 5500000000; ok = true }
    ∷ record { at = 4100000000; ok = false }
    ∷ record { at = 3000000000; ok = false }
    ∷ []

tally-recent_example :
    tally (2 * second) 5900000000 (touch_all (new_buckets (2 * second)) three)
    ≡ (recent true 2 (5900000000 / second) three, recent false 2 (5900000000 / second) three)
tally-recent_example =
    tally-recent 2 5900000000 three (omega arith) (omega arith, (omega arith, (omega arith, tt)))

one_recent_failure : recent false 2 5 three ≡ 1
unfolding recent
one_recent_failure = refl

abbrev small : CircuitBreakerConfig (ℕ × ℕ)
small = record {
  error_rate_threshold = (1, 2);
  min_samples = 2;
  window = 2000000000;
  open_duration = 1000000000;
  half_open_probes = 2;
}

abbrev outage : List Call
outage =
    records 3000000000 false
    ∷ records 3100000000 false
    ∷ allows 3200000000
    ∷ allows 4100000000
    ∷ records 4200000000 true
    ∷ records 4300000000 true
    ∷ []

observe-ideal_observe_example :
    observe fractions (new_circuit_breaker fractions small) outage
    ≡ ideal_observe fractions
        (new_config fractions small)
        2
        (record {
          switch = record { state = state_closed; opened_at = 0; half_success = 0 };
          outcomes = [];
        })
        outage
unfolding new_config or_default
observe-ideal_observe_example =
    observe-ideal_observe fractions small 2 outage (omega arith) refl
      (omega arith, (omega arith, (omega arith, (omega arith, (omega arith, (omega arith, tt))))))

abbrev opened : CircuitBreaker (ℕ × ℕ)
opened = record {
  cfg = small;
  switch = record { state = state_open; opened_at = 3000000000; half_success = 0 };
  buckets = [];
}

abbrev probed : CircuitBreaker (ℕ × ℕ)
probed = record opened {
  switch = record { state = state_half_open; opened_at = 0; half_success = 0 };
}

abbrev one_probe : List ℕ
one_probe = 5000000000 ∷ []

probing_closes_example :
    (length one_probe < 2 → (successes fractions probed one_probe).switch.state ≡ state_half_open)
    × (length one_probe ≡ 2 → (successes fractions probed one_probe).switch.state ≡ state_closed)
probing_closes_example =
    probing_closes fractions probed one_probe (omega arith) (omega arith) refl refl

abbrev stragglers : List Call
stragglers = records 3100000000 true ∷ allows 3900000000 ∷ []

open_refuses_example :
    All (IsRefusal fractions) (observe fractions opened stragglers)
    × ((allow fractions (after fractions opened stragglers) 4000000000).0 ≡ true)
    × ((allow fractions (after fractions opened stragglers) 4000000000).1.switch.state
        ≡ state_half_open)
    × ((allow fractions (after fractions opened stragglers) 4000000000).1.switch.half_success ≡ 0)
open_refuses_example =
    open_refuses fractions opened stragglers 4000000000 refl (tt, (omega arith, tt)) (omega arith)

abbrev gentle : BackpressureConfig (ℕ × ℕ)
gentle = record {
  error_rate_threshold = (1, 2);
  window = 2000000000;
  slow_multiplier = (1, 4);
  recover_delay = 3000000000;
  min_samples = 1;
}

abbrev throttled : BackpressureController (ℕ × ℕ)
throttled = record {
  cfg = gentle;
  multiplier = (1, 4);
  active = true;
  below_since = 0;
  buckets = empty_bucket ∷ empty_bucket ∷ [];
}

abbrev better : List Event
better = record { at = 3000000000; ok = true } ∷ record { at = 5900000000; ok = true } ∷ []

held_for_delay_example : (record_all fractions throttled better).active ≡ true
held_for_delay_example =
    held_for_delay fractions throttled 3000000000 better refl refl
      ((omega arith, omega arith), ((omega arith, omega arith), tt))
