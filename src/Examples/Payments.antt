-- ===== src/Examples/Payments.antt =====
-- The dunning driver (internal/payments/dunning.go) on a subscription whose payment keeps failing, and on
-- one that recovers.
use aforo_nextgen_loadgen.Base.{ℕ, zero, suc, ◌≡◌, refl, none, some, [], ◌∷◌, map}
use aforo_nextgen_loadgen.Lifecycle.Wire.{Strings}
use aforo_nextgen_loadgen.Lifecycle.TransitionLog.{
  TransitionRecord, TransitionStatus, ok, fail, new_log,
}
use aforo_nextgen_loadgen.Payments.Dunning.{
  DunningDriver, Texts, Turn, cancelled, answered, walk, is_recovered,
}
use aforo_nextgen_loadgen.Payments.Dunning.Escalation.{
  IsLogged, IsFailing, HasEscalated, walk-IsLogged, walk-HasEscalated,
}
use aforo_nextgen_loadgen.Payments.Dunning.Unjudged.{IsSame, walk-IsSame}

abbrev texts : Texts
texts = record {
  idem = λ prefix sub n. prefix;
  sub_status = λ s. s;
  transport_error = λ e. e;
  retry_payment = λ n e. e;
  post_max = λ s expected. s;
}

abbrev driver : DunningDriver
driver = record {
  transitions = new_log [];
  max_attempts = 3;
  interval = 60;
  idem_prefix = "aforo-loadgen-dunning";
  cycles = [];
}

-- A decline, a broken connection, and then declines.
abbrev declines : ℕ → Turn
declines zero = answered 402 (some "declined") ""
declines (suc zero) = answered 402 (some "declined") ""
declines (suc (suc zero)) = answered 0 (some "reset") ""
declines (suc (suc (suc n))) = answered 200 none "PAST_DUE"

declines-IsFailing : IsFailing declines
unfolding is_recovered
declines-IsFailing zero = (402, some "declined", "", refl, refl)
declines-IsFailing (suc zero) = (402, some "declined", "", refl, refl)
declines-IsFailing (suc (suc zero)) = (0, some "reset", "", refl, refl)
declines-IsFailing (suc (suc (suc n))) = (200, none, "PAST_DUE", refl, refl)

-- Three attempts, of which the second fails in transport, and an escalation.
three_then_suspended :
    map {B = ℕ × TransitionStatus × ℕ}
      (λ (r : TransitionRecord). (r.dunning_attempt, r.transition_status, r.http_status))
      (walk texts declines none "SUSPENDED" driver "t" "s" "i").0.transitions.rows
    ≡ (1, ok, 402) ∷ (2, fail, 0) ∷ (3, ok, 200) ∷ (0, ok, 0) ∷ []
unfolding walk new_log
three_then_suspended = refl

-- The first retry succeeds: one row, no escalation.
recovers_at_once :
    map {B = ℕ × TransitionStatus}
      (λ (r : TransitionRecord). (r.dunning_attempt, r.transition_status))
      (walk texts (λ n. answered 200 none "ACTIVE") none "" driver "t" "s" "i").0.transitions.rows
    ≡ (1, ok) ∷ []
unfolding walk new_log
recovers_at_once = refl

cancelled_at_once :
    (walk texts (λ n. cancelled "context canceled") none "" driver "t" "s" "i").2
    ≡ some "context canceled"
unfolding walk new_log
cancelled_at_once = refl

walk-IsLogged_example :
    IsLogged texts "aforo-loadgen-dunning" "t" "s"
      (new_log [])
      3
      none
      (walk texts declines none "SUSPENDED" driver "t" "s" "i").1
      (walk texts declines none "SUSPENDED" driver "t" "s" "i").0.transitions
unfolding new_log
walk-IsLogged_example = walk-IsLogged texts declines none "SUSPENDED" driver "t" "s" "i" refl

walk-HasEscalated_example :
    HasEscalated texts "aforo-loadgen-dunning" "t" "s"
      (new_log [])
      3
      none
      "SUSPENDED"
      (walk texts declines none "SUSPENDED" driver "t" "s" "i").1
      (walk texts declines none "SUSPENDED" driver "t" "s" "i").0.transitions
      (walk texts declines none "SUSPENDED" driver "t" "s" "i").2
unfolding new_log
walk-HasEscalated_example =
    walk-HasEscalated texts declines none "SUSPENDED" driver "t" "s" "i" refl declines-IsFailing

abbrev plain : Strings
plain = record {
  to_upper = λ s. s;
  trim_space = λ s. s;
  replace_newlines = λ s. s;
  byte_len = λ s. 0;
  byte_prefix = λ s n. s;
  join = λ s t. s;
}

walk-IsSame_example :
    IsSame plain (walk texts declines none "ACTIVE" driver "t" "s" "i").0.transitions (new_log [])
walk-IsSame_example = walk-IsSame plain texts declines none "ACTIVE" driver "t" "s" "i"
