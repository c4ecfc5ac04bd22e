-- ===== src/Driver/Fairness.antt =====
-- internal/driver/fairness.go: the gate that keeps one tenant from taking all of the capacity, and the
-- filter that puts it before the pool. Times are nanoseconds.
use aforo_nextgen_loadgen.Base.{
  ℕ, zero, suc, ◌+◌, ◌-◌, ◌/◌, Bool, true, false, ◌||◌, String, Option, none, some, List, [], ◌∷◌,
  ◌++◌, map, length, find, put, ltb, leb, ◌==◌, if◌then◌else◌,
}
use aforo_nextgen_loadgen.Base.Floats.{Floats}
pub mod Readmission
pub mod Counts

module _ (fl : Floats) where
  pub record FairnessConfig : Type 0 where
    pub window : ℕ
    pub min_share_fraction : fl.Float

  pub record FairnessGate : Type 0 where
    pub cfg : FairnessConfig
    pub total_events : ℕ
    pub tenant_counts : List (String × ℕ)
    pub window_start : ℕ
    pub tenant_order : List String

  -- A window that is not positive stands as 0.
  unfoldable pub new_fairness_gate : FairnessConfig → ℕ → FairnessGate
  new_fairness_gate cfg now =
      let half = fl.quot (fl.of_int 1) (fl.of_int 2) in
      let share =
        if fl.le cfg.min_share_fraction (fl.of_int 0) then half else cfg.min_share_fraction in
      record {
        cfg = record {
          window = (if cfg.window == 0 then 60000000000 else cfg.window);
          min_share_fraction = (if fl.lt (fl.of_int 1) share then fl.of_int 1 else share);
        };
        total_events = 0;
        tenant_counts = [];
        window_start = now;
        tenant_order = [];
      }

-- The counts at half weight; one that comes to nothing is deleted.
unfoldable pub decay : List (String × ℕ) → List (String × ℕ)
decay [] = []
decay ((k, v) ∷ rest) =
    let later = decay rest in let half = v / 2 in if half == 0 then later else (k, half) ∷ later

unfoldable pub count_of : String → List (String × ℕ) → ℕ
count_of k counts = elim (find k counts) [ none ↦ 0 | some c ↦ c ]

module _ (fl : Floats) where
  -- The code reads the clock twice, for the test and for the new start; here both are the one reading `now`.
  unfoldable pub maybe_roll_window : FairnessGate fl → ℕ → FairnessGate fl
  unfolding decay
  maybe_roll_window g now = if ltb (now - g.window_start) g.cfg.window then g else record g {
    tenant_counts = decay g.tenant_counts;
    total_events = g.total_events / 2;
    window_start = now;
  }

  unfoldable pub admit : FairnessGate fl → String → FairnessGate fl
  unfolding count_of
  admit g tenant = record g {
    tenant_counts = put tenant (suc (count_of tenant g.tenant_counts)) g.tenant_counts;
    total_events = suc g.total_events;
  }

  unfoldable pub note_tenant : FairnessGate fl → String → FairnessGate fl
  unfolding count_of
  note_tenant g tenant =
      if count_of tenant g.tenant_counts == 0
      then record g { tenant_order = g.tenant_order ++ tenant ∷ [] }
      else g

  -- currentShare > cap
  unfoldable pub is_hot : FairnessGate fl → String → ℕ → Bool
  unfolding count_of
  is_hot g tenant total_tenants =
      let uniform_share = fl.quot (fl.of_int 1) (fl.of_int total_tenants) in
      let current_share =
        fl.quot (fl.of_int (count_of tenant g.tenant_counts)) (fl.of_int g.total_events) in
      let cap =
        fl.mul (fl.mul uniform_share (fl.quot (fl.of_int 1) g.cfg.min_share_fraction))
          (fl.of_int 2) in
      fl.lt cap current_share

  -- What Allow decides once the window is up to date.
  unfoldable pub weigh : FairnessGate fl → String → ℕ → Bool × FairnessGate fl
  unfolding admit note_tenant is_hot
  weigh g tenant total_tenants =
      let noted = note_tenant g tenant in
      if ltb g.total_events 32
      then (true, admit noted tenant)
      else if is_hot g tenant total_tenants
      then (false, noted)
      else (true, admit noted tenant)

  -- Allow, on a gate that is not nil.
  unfoldable pub allow : FairnessGate fl → ℕ → String → ℕ → Bool × FairnessGate fl
  unfolding weigh maybe_roll_window
  allow g now tenant total_tenants =
      if leb total_tenants 1
      then (true, g)
      else weigh (maybe_roll_window g now) tenant total_tenants

  unfoldable pub snapshot : FairnessGate fl → List (String × fl.Float)
  snapshot g =
      if g.total_events == 0
      then []
      else map (λ (e : String × ℕ). (e.0, fl.quot (fl.of_int e.1) (fl.of_int g.total_events)))
          g.tenant_counts

  -- `sort` is sort.Strings.
  unfoldable pub tenants : (List String → List String) → FairnessGate fl → List String
  tenants sort g = sort g.tenant_order

  -- An event is its tenant; `none` is a nil event. The filter's output, and what it reports as deferred.
  unfoldable pub run_filter :
      ℕ → FairnessGate fl → List (ℕ × Option String) → FairnessGate fl × List String × List String
  unfolding allow
  run_filter total_tenants g [] = (g, [], [])
  run_filter total_tenants g ((now, none) ∷ rest) = run_filter total_tenants g rest
  run_filter total_tenants g ((now, some tenant) ∷ rest) =
      let (ok, next) = allow g now tenant total_tenants in
      let (end, out, deferred) = run_filter total_tenants next rest in
      (end, if ok then tenant ∷ out else out, if ok then deferred else tenant ∷ deferred)
