-- ===== src/Driver/CircuitBreaker/Probing.antt =====
-- How the circuit breaker comes back (internal/driver/circuit_breaker.go).
use aforo_nextgen_loadgen.Base.{
  ℕ, suc, ◌+◌, ◌^◌, ◌≤◌, ◌<◌, ◌≡◌, refl, ap, ltb, leb, ltb→lt, ◌≢◌, subst, sym, ◌∙◌, Bool, true,
  false, Option, some, List, [], ◌∷◌, inl, inr, arith, length, All, Bool-cases,
}
use aforo_nextgen_loadgen.Base.Floats.{Floats}
use aforo_nextgen_loadgen.Driver.CircuitBreaker.{
  CircuitBreakerConfig, state_closed, state_half_open, state_open, Switch, CircuitBreaker, ask,
  probe, add_int32, int32_reaches, react, allow, record_outcome,
}
use aforo_nextgen_loadgen.Driver.CircuitBreaker.Refinement.{
  Call, allows, records, forces, call, observe,
}

add_int32_small : (k : ℕ) → suc k < 2 ^ 31 → add_int32 k ≡ suc k
unfolding add_int32
add_int32_small k h = omega arith

reaches_not : (n p : ℕ) → n < p → int32_reaches n p ≡ false
unfolding int32_reaches
reaches_not n p h = ground arith

reaches_at : (n p : ℕ) → n < 2 ^ 31 → n ≡ p → int32_reaches n p ≡ true
unfolding int32_reaches
reaches_at n p small h = ground arith

ask_early :
    {F : Type 0} (cfg : CircuitBreakerConfig F) (s : Switch) (now : ℕ)
    → s.state ≡ state_open
    → now < s.opened_at + cfg.open_duration
    → ask cfg s now ≡ (false, s)
unfolding ask
ask_early cfg s now is_open early =
    let test : leb (s.opened_at + cfg.open_duration) now ≡ false = ground arith in
    rw is_open (rw test refl)

ask_due :
    {F : Type 0} (cfg : CircuitBreakerConfig F) (s : Switch) (now : ℕ)
    → s.state ≡ state_open
    → s.opened_at + cfg.open_duration ≤ now
    → ask cfg s now ≡ (true, record s { state = state_half_open; half_success = 0 })
unfolding ask
ask_due cfg s now is_open due =
    let test : leb (s.opened_at + cfg.open_duration) now ≡ true = ground arith in
    rw is_open (rw test refl)

module _ (fl : Floats) where
  -- A success at each of the times.
  abbrev pub successes : CircuitBreaker fl.Float → List ℕ → CircuitBreaker fl.Float
  successes cb [] = cb
  successes cb (t ∷ rest) = successes (record_outcome fl cb t true) rest

  probe_once :
      (cb : CircuitBreaker fl.Float) (t k : ℕ)
      → cb.switch.state ≡ state_half_open
      → cb.switch.half_success ≡ k
      → suc k < 2 ^ 31
      → (suc k < cb.cfg.half_open_probes
          → ((record_outcome fl cb t true).switch.state ≡ state_half_open)
            × ((record_outcome fl cb t true).switch.half_success ≡ suc k))
        × (suc k ≡ cb.cfg.half_open_probes
            → (record_outcome fl cb t true).switch.state ≡ state_closed)
  unfolding record_outcome react probe
  probe_once cb t k half now small =
      let p = cb.cfg.half_open_probes in
      rw (half, now, add_int32_small k small)
        (
          λ more. rw (reaches_not (suc k) p more) (refl, refl),
          λ last. rw (reaches_at (suc k) p small last) refl,
        )

  same_cfg :
      (cb : CircuitBreaker fl.Float) (t : ℕ) (ok : Bool) → (record_outcome fl cb t ok).cfg ≡ cb.cfg
  unfolding record_outcome
  same_cfg cb t ok = refl

  probes_left :
      (cb : CircuitBreaker fl.Float) (times : List ℕ) (k : ℕ)
      → cb.cfg.half_open_probes < 2 ^ 31
      → cb.switch.state ≡ state_half_open
      → cb.switch.half_success ≡ k
      → k < cb.cfg.half_open_probes
      → (k + length times < cb.cfg.half_open_probes
          → (successes cb times).switch.state ≡ state_half_open)
        × (k + length times ≡ cb.cfg.half_open_probes
            → (successes cb times).switch.state ≡ state_closed)
  unfolding record_outcome
  probes_left cb [] k fits half now below = (λ h. half, λ h. absurd (omega arith))
  probes_left cb (t ∷ []) k fits half now below =
      let (more, last) = probe_once cb t k half now (omega arith) in
      (λ h. (more (omega arith)).0, λ h. last (omega arith))
  probes_left cb (t ∷ u ∷ rest) k fits half now below =
      elim (Bool-cases (ltb (suc k) cb.cfg.half_open_probes)) [
        | inl more ↦
            let (still, count) =
              (probe_once cb t k half now (omega arith)).0
                (ltb→lt (suc k) cb.cfg.half_open_probes more) in
            let (early, exact) =
              probes_left (record_outcome fl cb t true) (u ∷ rest) (suc k) fits still count
                (ltb→lt (suc k) cb.cfg.half_open_probes more) in
            (λ h. early (omega arith), λ h. exact (omega arith))
        | inr over ↦ (λ h. absurd (ground arith), λ h. absurd (ground arith))
      ]

  -- A breaker that has just become half open stays so while the successes are fewer than
  -- HalfOpenProbes, and closes with the last of them; the number is one that an int32 holds.
  pub probing_closes :
      (cb : CircuitBreaker fl.Float) (times : List ℕ)
      → 0 < cb.cfg.half_open_probes
      → cb.cfg.half_open_probes < 2 ^ 31
      → cb.switch.state ≡ state_half_open
      → cb.switch.half_success ≡ 0
      → (length times < cb.cfg.half_open_probes
          → (successes cb times).switch.state ≡ state_half_open)
        × (length times ≡ cb.cfg.half_open_probes
            → (successes cb times).switch.state ≡ state_closed)
  probing_closes cb times some_probes fits half fresh =
      let (early, exact) = probes_left cb times 0 fits half fresh some_probes in
      (λ h. early (omega arith), λ h. exact (omega arith))

  -- Outcomes of calls already under way, and questions before the time `until`.
  abbrev pub IsBefore : ℕ → Call → Type 0
  IsBefore until (allows now) = now < until
  IsBefore until (records now success) = Unit
  IsBefore until (forces now) = ⊥

  -- A question that is refused, or no question.
  abbrev pub IsRefusal : Option Bool × Switch → Type 0
  IsRefusal (answer, s) = answer ≢ some true

  abbrev pub after : CircuitBreaker fl.Float → List Call → CircuitBreaker fl.Float
  after cb [] = cb
  after cb (c ∷ rest) = after (call fl cb c).1 rest

  open_kept :
      (cb : CircuitBreaker fl.Float) (c : Call)
      → cb.switch.state ≡ state_open
      → IsBefore (cb.switch.opened_at + cb.cfg.open_duration) c
      → ((call fl cb c).1.switch ≡ cb.switch)
        × ((call fl cb c).1.cfg ≡ cb.cfg)
        × ((call fl cb c).0 ≢ some true)
  unfolding allow ask record_outcome react
  open_kept cb (allows now) is_open early =
      let refused = ask_early cb.cfg cb.switch now is_open early in
      rw (refused, allow) (refl, refl, λ e. cc)
  open_kept cb (records now success) is_open early = rw is_open (refl, refl, λ e. cc)
  open_kept cb (forces now) is_open early = absurd early

  -- While it is open the breaker refuses every question before OpenDuration has passed, whatever
  -- outcomes come in between and with no ForceOpen, and it answers yes to the first one from then on, half open with no
  -- success counted.
  pub open_refuses :
      (cb : CircuitBreaker fl.Float) (calls : List Call) (now : ℕ)
      → cb.switch.state ≡ state_open
      → All (IsBefore (cb.switch.opened_at + cb.cfg.open_duration)) calls
      → cb.switch.opened_at + cb.cfg.open_duration ≤ now
      → All IsRefusal (observe fl cb calls)
        × ((allow fl (after cb calls) now).0 ≡ true)
        × ((allow fl (after cb calls) now).1.switch.state ≡ state_half_open)
        × ((allow fl (after cb calls) now).1.switch.half_success ≡ 0)
  unfolding allow
  open_refuses cb [] now is_open early due =
      rw (ask_due cb.cfg cb.switch now is_open due, allow) (tt, refl, refl, refl)
  open_refuses cb (c ∷ rest) now is_open early due =
      let next = (call fl cb c).1 in
      let (switch, cfg, refused) = open_kept cb c is_open early.0 in
      let until : next.switch.opened_at + next.cfg.open_duration
          ≡ cb.switch.opened_at + cb.cfg.open_duration =
        rw (switch, cfg) refl in
      let (refusals, allowed, half, fresh) =
        open_refuses next rest now (ap (λ s. s.state) switch ∙ is_open)
          (subst (λ u. All (IsBefore u) rest) (sym until) early.1) (omega (arith, until)) in
      ((refused, refusals), allowed, half, fresh)
