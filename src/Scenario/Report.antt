-- ===== src/Scenario/Report.antt =====
-- What the validator reports (internal/scenario/validator.go): the path of a violation and the rule that it
-- breaks, which stands for the wording of the message. A check is the list of what it adds to v.errs.
use aforo_nextgen_loadgen.Base.{
  ℕ, suc, Bool, true, false, not, ◌||◌, String, List, [], ◌∷◌, ◌++◌, ◌≡◌, ◌↔◌, ◌⊎◌, inl, inr, refl,
  if◌then◌else◌,
}
use aforo_nextgen_loadgen.Base.Floats.{Floats}
use aforo_nextgen_loadgen.Lifecycle.Wire.{Strings}
use aforo_nextgen_loadgen.Scenario.Rates.{StaircaseBand}

pub data Rule : Type 0 where
  nil_document required unknown_kind duplicate : Rule
  bad_name bad_version : Rule
  not_positive negative not_in_unit not_finite above_cap above_one : Rule
  sum_not_one sum_above_one : Rule
  no_tiers not_ascending open_not_last : Rule
  not_from_zero below_from not_contiguous : Rule
  not_a_status all_zero : Rule
  flat_fee_per_metric not_a_fraction needs_wallet needs_quota : Rule
  not_in_product_types not_a_currency not_a_pair unknown_jurisdiction : Rule
  no_rate_cards leakage_allowed needs_stale_states missing_param : Rule

pub record Violation : Type 0 where
  pub path : List String
  pub rule : Rule

-- What the validator takes from Go's libraries: fmt, regexp on the pattern of a name, strings, sort.
pub record Library (F : Type 0) : Type 1 where
  pub index_seg : ℕ → String
  pub is_kebab_case : String → Bool
  pub strings : Strings
  pub bytes : String → List ℕ
  pub sort_weights : List (String × F) → List (String × F)
  pub sort_mixes : List (String × List (String × F)) → List (String × List (String × F))
  pub sort_order : List (ℕ × StaircaseBand F) → List (ℕ × StaircaseBand F)

-- if broken { v.addAt(path, …) }
unfoldable pub report_if : Bool → List String → Rule → List Violation
report_if true path rule = record { path = path; rule = rule } ∷ []
report_if false path rule = []

-- The sections of a report in turn.
unfoldable pub in_turn : List (List Violation) → List Violation
in_turn [] = []
in_turn (vs ∷ rest) = vs ++ in_turn rest

-- The checks of the elements of a list, with the index of each.
unfoldable pub check_each : {A : Type 0} → (ℕ → A → List Violation) → ℕ → List A → List Violation
check_each check i [] = []
check_each check i (x ∷ xs) = check i x ++ check_each check (suc i) xs

-- The checks of the entries of a map.
unfoldable pub check_entries :
    {A : Type 0} → (String → A → List Violation) → List (String × A) → List Violation
check_entries check [] = []
check_entries check ((k, v) ∷ m) = check k v ++ check_entries check m

module _ (fl : Floats) where
  -- w < 0 || w > 1
  unfoldable pub is_off_unit : fl.Float → Bool
  is_off_unit w = fl.lt w (fl.of_int 0) || fl.lt (fl.of_int 1) w

  abbrev pub tolerance : fl.Float
  tolerance = fl.quot (fl.of_int 1) (fl.of_int 1000)

  -- math.Abs(sum - 1.0) <= weightTolerance
  unfoldable pub weights_approx_one : fl.Float → Bool
  weights_approx_one sum =
      let d = fl.sub sum (fl.of_int 1) in
      fl.le (if fl.lt d (fl.of_int 0) then fl.sub (fl.of_int 0) d else d) tolerance

  -- math.IsNaN(w) || math.IsInf(w, 0)
  unfoldable pub is_not_finite : fl.Float → Bool
  is_not_finite w = fl.is_nan w || fl.is_inf w

  unfoldable pub add_weights : fl.Float → List (String × fl.Float) → fl.Float
  add_weights sum [] = sum
  add_weights sum ((k, w) ∷ m) = add_weights (fl.add sum w) m

-- The sections of a report are empty exactly if the report is.
pub append-nil_iff : {A : Type 0} (xs ys : List A) → (xs ++ ys ≡ []) ↔ ((xs ≡ []) × (ys ≡ []))
append-nil_iff [] ys = (λ e. (refl, e), λ h. h.1)
append-nil_iff (x ∷ xs) ys = (λ e. absurd cc, λ h. absurd cc)

pub report_if-nil :
    (b : Bool) (path : List String) (rule : Rule) → report_if b path rule ≡ [] → b ≡ false
unfolding report_if
report_if-nil true path rule e = absurd cc
report_if-nil false path rule e = refl

-- The branch that was taken has no report.
pub branch-nil :
    {A : Type 0} (b : Bool) (xs ys : List A)
    → (if b then xs else ys) ≡ []
    → ((b ≡ true) × (xs ≡ [])) ⊎ ((b ≡ false) × (ys ≡ []))
branch-nil true xs ys e = inl (refl, e)
branch-nil false xs ys e = inr (refl, e)

pub not-false : (b : Bool) → not b ≡ false → b ≡ true
not-false true e = refl
not-false false e = absurd cc

pub in_turn-nil :
    (vs : List Violation) (rest : List (List Violation))
    → in_turn (vs ∷ rest) ≡ []
    → (vs ≡ []) × (in_turn rest ≡ [])
unfolding in_turn
in_turn-nil vs rest e = (append-nil_iff vs (in_turn rest)).0 e
