-- ===== src/Driver/CircuitBreaker/Refinement.antt =====
-- The circuit breaker against one that remembers every outcome (internal/driver/circuit_breaker.go).
use aforo_nextgen_loadgen.Base.{
  ℕ, ◌*◌, ◌/◌, ◌≤◌, ◌<◌, ◌≡◌, refl, ap, subst, sym, ◌∙◌, Bool, true, false, Option, none, some,
  List, [], ◌∷◌, map, arith, length, replicate, if◌then◌else◌,
}
use aforo_nextgen_loadgen.Base.Floats.{Floats}
use aforo_nextgen_loadgen.Driver.Window.{Bucket, empty_bucket, second, touch_bucket, tally}
use aforo_nextgen_loadgen.Driver.Window.Shares.{Event, recent}
use aforo_nextgen_loadgen.Driver.Window.Recent.{
  IsRing, replicate-IsRing, new_buckets-IsRing, touch-IsRing, later-IsRing, IsRing-tally,
}
use aforo_nextgen_loadgen.Driver.CircuitBreaker.{
  state_closed, CircuitBreakerConfig, Switch, CircuitBreaker, new_circuit_breaker, new_config, ask,
  react, trip, allow, record_outcome, force_open,
}

pub data Call : Type 0 where
  allows : ℕ → Call
  records : ℕ → Bool → Call
  forces : ℕ → Call

abbrev pub time_of : Call → ℕ
time_of (allows now) = now
time_of (records now success) = now
time_of (forces now) = now

-- The clock does not go back from call to call.
abbrev pub GoesForward : ℕ → List Call → Type 0
GoesForward last [] = Unit
GoesForward last (c ∷ rest) = (last ≤ time_of c) × GoesForward (time_of c) rest

-- A breaker that keeps every outcome since the last reset, the latest first.
pub record Ideal : Type 0 where
  pub switch : Switch
  pub outcomes : List Event

map_empty : (bs : List Bucket) → map (λ b. empty_bucket) bs ≡ replicate (length bs) empty_bucket
map_empty [] = refl
map_empty (b ∷ bs) = ap (λ xs. empty_bucket ∷ xs) (map_empty bs)

cleared-IsRing :
    (size last : ℕ) (events : List Event) (bs : List Bucket)
    → IsRing size last events bs
    → IsRing size last [] (map (λ b. empty_bucket) bs)
cleared-IsRing size last events bs ring =
    subst (λ xs. IsRing size last [] xs)
      (ap (λ n. replicate n empty_bucket) (sym ring.full) ∙ sym (map_empty bs))
      (replicate-IsRing size last)

reset-IsRing :
    (size last : ℕ) (events : List Event) (bs : List Bucket) (reset : Bool)
    → IsRing size last events bs
    → IsRing size last
        (if reset then [] else events)
        (if reset then map (λ b. empty_bucket) bs else bs)
reset-IsRing size last events bs true ring = cleared-IsRing size last events bs ring
reset-IsRing size last events bs false ring = ring

module _ (fl : Floats) where
  -- A call, and what Allow answers.
  abbrev pub call : CircuitBreaker fl.Float → Call → Option Bool × CircuitBreaker fl.Float
  call cb (allows now) = let (ok, next) = allow fl cb now in (some ok, next)
  call cb (records now success) = (none, record_outcome fl cb now success)
  call cb (forces now) = (none, force_open fl cb now)

  -- The answers and the switch after each call.
  abbrev pub observe : CircuitBreaker fl.Float → List Call → List (Option Bool × Switch)
  observe cb [] = []
  observe cb (c ∷ rest) =
      let (answer, next) = call cb c in (answer, next.switch) ∷ observe next rest

  module _ (cfg : CircuitBreakerConfig fl.Float) (size : ℕ) where
    -- The same calls on the breaker that forgets nothing: the rate is of the outcomes of the last
    -- `size` seconds.
    abbrev pub ideal_record : Ideal → ℕ → Bool → Ideal
    ideal_record i now success =
        let outcomes = record { at = now; ok = success } ∷ i.outcomes in
        let (s, reset) =
          react fl cfg i.switch now success
            (recent true size (now / second) outcomes, recent false size (now / second) outcomes) in
        record { switch = s; outcomes = (if reset then [] else outcomes) }

    abbrev pub ideal_call : Ideal → Call → Option Bool × Ideal
    ideal_call i (allows now) =
        let (ok, s) = ask cfg i.switch now in (some ok, record i { switch = s })
    ideal_call i (records now success) = (none, ideal_record i now success)
    ideal_call i (forces now) = (none, record i { switch = trip i.switch now })

    abbrev pub ideal_observe : Ideal → List Call → List (Option Bool × Switch)
    ideal_observe i [] = []
    ideal_observe i (c ∷ rest) =
        let (answer, next) = ideal_call i c in (answer, next.switch) ∷ ideal_observe next rest

    -- The breaker at the second `last` stands for the ideal one.
    record Refines (last : ℕ) (cb : CircuitBreaker fl.Float) (i : Ideal) : Type 0 where
      same_cfg : cb.cfg ≡ cfg
      same_switch : cb.switch ≡ i.switch
      ring : IsRing size last i.outcomes cb.buckets

    record_outcome-Refines :
        (last now : ℕ) (success : Bool) (cb : CircuitBreaker fl.Float) (i : Ideal)
        → 0 < size
        → cfg.window ≡ size * second
        → last ≤ now / second
        → Refines last cb i
        → Refines (now / second) (record_outcome fl cb now success) (ideal_record i now success)
    unfolding record_outcome
    record_outcome-Refines last now success cb i h window before r =
        let touched = touch_bucket cb.buckets now success in
        let outcomes : List Event = record { at = now; ok = success } ∷ i.outcomes in
        let ring : IsRing size (now / second) outcomes touched =
          touch-IsRing size last now success i.outcomes cb.buckets h before r.ring in
        let counts = IsRing-tally size (now / second) now outcomes touched (omega arith) ring in
        let ideal : Switch × Bool =
          react fl cfg i.switch now success
            (recent true size (now / second) outcomes, recent false size (now / second) outcomes) in
        let same : react fl cb.cfg cb.switch now success (tally cb.cfg.window now touched) ≡ ideal =
          rw (r.same_cfg, r.same_switch, window, counts) refl in
        record {
          same_cfg = r.same_cfg;
          same_switch = ap (λ x. x.0) same;
          ring =
              subst
                (λ reset.
                  IsRing size (now / second) (if ideal.1 then [] else outcomes)
                    (if reset then map (λ b. empty_bucket) touched else touched))
                (ap (λ x. x.1) (sym same))
                (reset-IsRing size (now / second) outcomes touched ideal.1 ring);
        }

    -- Each call keeps the two breakers together, and gives the same answer.
    call-Refines :
        (last : ℕ) (c : Call) (cb : CircuitBreaker fl.Float) (i : Ideal)
        → 0 < size
        → cfg.window ≡ size * second
        → last ≤ time_of c / second
        → Refines last cb i
        → Refines (time_of c / second) (call cb c).1 (ideal_call i c).1
          × ((call cb c).0 ≡ (ideal_call i c).0)
    unfolding allow force_open
    call-Refines last (allows now) cb i h window before r =
        let ring = later-IsRing size last (now / second) i.outcomes cb.buckets before r.ring in
        let same : ask cb.cfg cb.switch now ≡ ask cfg i.switch now =
          rw (r.same_cfg, r.same_switch) refl in
        (
          record { same_cfg = r.same_cfg; same_switch = ap (λ x. x.1) same; ring = ring },
          ap (λ x. some x.0) same,
        )
    call-Refines last (records now success) cb i h window before r =
        (record_outcome-Refines last now success cb i h window before r, refl)
    call-Refines last (forces now) cb i h window before r =
        let ring = later-IsRing size last (now / second) i.outcomes cb.buckets before r.ring in
        (
          record {
            same_cfg = r.same_cfg;
            same_switch = ap (λ s. trip s now) r.same_switch;
            ring = ring;
          },
          refl,
        )

    observe_same :
        (last : ℕ) (calls : List Call) (cb : CircuitBreaker fl.Float) (i : Ideal)
        → 0 < size
        → cfg.window ≡ size * second
        → GoesForward last calls
        → Refines (last / second) cb i
        → observe cb calls ≡ ideal_observe i calls
    observe_same last [] cb i h window order r = refl
    observe_same last (c ∷ rest) cb i h window order r =
        let (next, answers) =
          call-Refines (last / second) c cb i h window (omega (arith, order.0)) r in
        let later =
          observe_same (time_of c) rest (call cb c).1 (ideal_call i c).1 h window order.1 next in
        rw (answers, next.same_switch, later) refl

  -- Over any calls, with a window of whole seconds and a clock that does not go back, the breaker
  -- answers and switches as the one that keeps every outcome and takes the rate of those of the last
  -- `size` seconds since the last reset.
  pub observe-ideal_observe :
      (given : CircuitBreakerConfig fl.Float) (size : ℕ) (calls : List Call)
      → 0 < size
      → (new_config fl given).window ≡ size * second
      → GoesForward 0 calls
      → observe (new_circuit_breaker fl given) calls
        ≡ ideal_observe
            (new_config fl given)
            size
            (record {
              switch = record { state = state_closed; opened_at = 0; half_success = 0 };
              outcomes = [];
            })
            calls
  unfolding new_circuit_breaker
  observe-ideal_observe given size calls h window order =
      observe_same (new_config fl given) size 0 calls (new_circuit_breaker fl given) _ h window
        order
        (record {
          same_cfg = refl;
          same_switch = refl;
          ring = rw window (new_buckets-IsRing size 0 h);
        })
