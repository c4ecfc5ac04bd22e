-- ===== src/Driver/Backpressure/Release.antt =====
-- When backpressure sets in and lets go (internal/driver/backpressure.go).
use aforo_nextgen_loadgen.Base.{
  ℕ, ◌+◌, ◌≤◌, ◌<◌, ◌≡◌, refl, ◌&&◌, Bool, true, false, List, [], ◌∷◌, All, arith, inl, inr, ◌⊎◌,
  ◌==◌, leb, ltb, if◌then◌else◌, Bool-cases,
}
use aforo_nextgen_loadgen.Base.Floats.{Floats}
use aforo_nextgen_loadgen.Driver.Window.{touch_bucket, tally}
use aforo_nextgen_loadgen.Driver.Window.Shares.{Event}
use aforo_nextgen_loadgen.Driver.Backpressure.{
  BackpressureConfig, BackpressureController, new_backpressure, throttle, recover, weigh, ratio,
  record_outcome,
}

and_false : (a b : Bool) {c : Bool} → c ≡ false → (a && b && c) ≡ false
and_false a b h = ground arith

module _ (fl : Floats) where
  -- The outcomes of a list, the first of them first.
  abbrev pub record_all :
      BackpressureController fl.Float → List Event → BackpressureController fl.Float
  record_all bp [] = bp
  record_all bp (e ∷ rest) = record_all (record_outcome fl bp e.at e.ok) rest

  -- The multiplier is the slow one exactly while backpressure is on.
  abbrev pub MatchesActive : BackpressureController fl.Float → Type 0
  MatchesActive bp = bp.multiplier ≡ (if bp.active then bp.cfg.slow_multiplier else fl.of_int 1)

  weigh-MatchesActive :
      (bp : BackpressureController fl.Float) (now : ℕ) (counts : ℕ × ℕ)
      → MatchesActive bp
      → MatchesActive (weigh fl bp now counts)
  unfolding weigh throttle recover
  weigh-MatchesActive bp now counts h = ground (arith, h)

  -- On, with the wait for recovery not begun, or begun no earlier than `since`.
  record IsHeld (since : ℕ) (cfg : BackpressureConfig fl.Float)
      (bp : BackpressureController fl.Float) : Type 0 where
    on : bp.active ≡ true
    waits : (bp.below_since ≡ 0) ⊎ (since ≤ bp.below_since)
    same_cfg : bp.cfg ≡ cfg

  throttle-IsHeld :
      (since : ℕ) (cfg : BackpressureConfig fl.Float) (bp : BackpressureController fl.Float)
      → IsHeld since cfg bp
      → IsHeld since cfg (throttle fl bp)
  unfolding throttle
  throttle-IsHeld since cfg bp h =
      rw h.on (record { on = refl; waits = inl refl; same_cfg = h.same_cfg })

  recover-IsHeld :
      (since now : ℕ) (cfg : BackpressureConfig fl.Float) (bp : BackpressureController fl.Float)
      → since ≤ now
      → now < since + cfg.recover_delay
      → IsHeld since cfg bp
      → IsHeld since cfg (recover fl bp now)
  unfolding recover
  recover-IsHeld since now cfg bp before early h =
      let first : ℕ = if bp.below_since == 0 then now else bp.below_since in
      let late : since ≤ first = elim h.waits [
        | inl e ↦ ground (arith, e)
        | inr e ↦ ground (arith, e)
      ] in
      let delay : bp.cfg.recover_delay ≡ cfg.recover_delay = rw h.same_cfg refl in
      let test : leb (first + bp.cfg.recover_delay) now ≡ false =
        ground (arith, late, delay, early) in
      let guard : (bp.active && ltb 0 first && leb (first + bp.cfg.recover_delay) now) ≡ false =
        and_false bp.active (ltb 0 first) test in
      rw guard (record { on = h.on; waits = inr late; same_cfg = h.same_cfg })

  weigh-IsHeld :
      (since now : ℕ) (cfg : BackpressureConfig fl.Float) (bp : BackpressureController fl.Float)
      (counts : ℕ × ℕ)
      → since ≤ now
      → now < since + cfg.recover_delay
      → IsHeld since cfg bp
      → IsHeld since cfg (weigh fl bp now counts)
  unfolding weigh
  weigh-IsHeld since now cfg bp (succ, fail) before early h =
      elim (Bool-cases (ltb (succ + fail) bp.cfg.min_samples)) [
        | inl few ↦ rw few h
        | inr enough ↦
            elim (Bool-cases (fl.le bp.cfg.error_rate_threshold (ratio fl fail (succ + fail)))) [
              | inl bad ↦ rw (enough, bad) (throttle-IsHeld since cfg bp h)
              | inr good ↦ rw (enough, good) (recover-IsHeld since now cfg bp before early h)
            ]
      ]

  -- The outcomes of a list come at times from `since` on and before `until`.
  abbrev pub IsWithin : ℕ → ℕ → Event → Type 0
  IsWithin since until e = (since ≤ e.at) × (e.at < until)

  record_all-IsHeld :
      (since : ℕ) (cfg : BackpressureConfig fl.Float) (bp : BackpressureController fl.Float)
      (events : List Event)
      → IsHeld since cfg bp
      → All (IsWithin since (since + cfg.recover_delay)) events
      → IsHeld since cfg (record_all bp events)
  unfolding record_outcome
  record_all-IsHeld since cfg bp [] h within = h
  record_all-IsHeld since cfg bp (e ∷ rest) h within =
      let touched = touch_bucket bp.buckets e.at e.ok in
      let h1 : IsHeld since cfg (record bp { buckets = touched }) = record {
        on = h.on;
        waits = h.waits;
        same_cfg = h.same_cfg;
      } in
      record_all-IsHeld since cfg (record_outcome fl bp e.at e.ok) rest
        (weigh-IsHeld since e.at cfg (record bp { buckets = touched })
          (tally bp.cfg.window e.at touched) within.0.0 within.0.1 h1)
        within.1

  -- Backpressure that has set in at the time `since` is still on after any outcomes that come
  -- before RecoverDelay has passed.
  pub held_for_delay :
      (bp : BackpressureController fl.Float) (since : ℕ) (events : List Event)
      → bp.active ≡ true
      → bp.below_since ≡ 0
      → All (IsWithin since (since + bp.cfg.recover_delay)) events
      → (record_all bp events).active ≡ true
  held_for_delay bp since events on waits within =
      (record_all-IsHeld since bp.cfg bp events
        (record { on = on; waits = inl waits; same_cfg = refl }) within).on

  record_all-MatchesActive :
      (bp : BackpressureController fl.Float) (events : List Event)
      → MatchesActive bp
      → MatchesActive (record_all bp events)
  unfolding record_outcome
  record_all-MatchesActive bp [] h = h
  record_all-MatchesActive bp (e ∷ rest) h =
      let touched = touch_bucket bp.buckets e.at e.ok in
      record_all-MatchesActive (record_outcome fl bp e.at e.ok) rest (
        weigh-MatchesActive (record bp { buckets = touched }) e.at
          (tally bp.cfg.window e.at touched) h)

  -- After any outcomes on a new controller, the multiplier is the slow one while backpressure is on,
  -- and one while it is off.
  pub new_backpressure-MatchesActive :
      (given : BackpressureConfig fl.Float) (events : List Event)
      → MatchesActive (record_all (new_backpressure fl given) events)
  unfolding new_backpressure
  new_backpressure-MatchesActive given events =
      record_all-MatchesActive (new_backpressure fl given) events refl
