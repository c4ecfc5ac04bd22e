-- ===== src/Scenario/RateCards/Distinct.antt =====
-- The names that the loops of checkTenants and checkRateCards let pass (internal/scenario/validator.go).
use aforo_nextgen_loadgen.Base.{
  ℕ, suc, false, String, Option, none, some, List, [], ◌∷◌, ◌≡◌, inl, inr, refl, sym, subst, ◌∙◌,
  All, All-map_imp, find, put, find-put, is_key, Bool-cases, if◌then◌else◌,
}
use aforo_nextgen_loadgen.Scenario.RateCards.{check_prior, check_name, note_first, note_name}
use aforo_nextgen_loadgen.Scenario.Report.{report_if, branch-nil}

-- Every name differs from the ones after it, and none is empty.
abbrev pub AreDistinct : List String → Type 0
AreDistinct [] = Unit
AreDistinct (n ∷ rest) =
    (is_key n "" ≡ false) × All (λ m. is_key n m ≡ false) rest × AreDistinct rest

-- The loop reports nothing for the names; `at` is where it would.
abbrev pub IsSilent : (ℕ → List String) → List (String × ℕ) → ℕ → List String → Type 0
IsSilent at seen i [] = Unit
IsSilent at seen i (n ∷ rest) =
    (check_name (at i) seen n ≡ []) × IsSilent at (note_name seen i n) (suc i) rest

check_prior-nil : (at : List String) (prior : Option ℕ) → check_prior at prior ≡ [] → prior ≡ none
unfolding check_prior report_if
check_prior-nil at none e = refl
check_prior-nil at (some i) e = absurd cc

check_name-nil :
    (at : List String) (seen : List (String × ℕ)) (n : String)
    → check_name at seen n ≡ []
    → (is_key n "" ≡ false) × (find n seen ≡ none)
unfolding check_name report_if
check_name-nil at seen n e = elim (branch-nil (is_key n "") _ _ e) [
  | inl (empty, reported_it) ↦ absurd cc
  | inr (named, silent) ↦ (named, check_prior-nil at (find n seen) silent)
]

note_name_new :
    (seen : List (String × ℕ)) (i : ℕ) (n : String)
    → is_key n "" ≡ false
    → find n seen ≡ none
    → note_name seen i n ≡ put n i seen
unfolding note_name note_first
note_name_new seen i n named new = rw named (rw (new, note_first) refl)

-- A name that is new once another is noted was new before, and differs from the other.
new_after :
    (n m : String) (i : ℕ) (seen : List (String × ℕ))
    → find m (put n i seen) ≡ none
    → (is_key n m ≡ false) × (find m seen ≡ none)
new_after n m i seen h =
    let stored = find-put n m i seen in
    elim (Bool-cases (is_key n m)) [
      | inl same ↦ let there : find m (put n i seen) ≡ some i = stored ∙ rw same refl in absurd cc
      | inr differ ↦
          let kept : (if is_key n m then some i else find m seen) ≡ find m seen = rw differ refl in
          (differ, sym kept ∙ (sym stored ∙ h))
    ]

silent-fresh :
    (at : ℕ → List String) (seen : List (String × ℕ)) (i : ℕ) (names : List String)
    → IsSilent at seen i names
    → All (λ m. find m seen ≡ none) names
silent-fresh at seen i [] silent = tt
silent-fresh at seen i (n ∷ rest) (here, later) =
    let (named, new) = check_name-nil (at i) seen n here in
    let noted = note_name_new seen i n named new in
    (
      new,
      All-map_imp (λ m h. (new_after n m i seen (subst (λ s. find m s ≡ none) noted h)).1) rest
          (silent-fresh at (note_name seen i n) (suc i) rest later),
    )

pub silent-AreDistinct :
    (at : ℕ → List String) (seen : List (String × ℕ)) (i : ℕ) (names : List String)
    → IsSilent at seen i names
    → AreDistinct names
silent-AreDistinct at seen i [] silent = tt
silent-AreDistinct at seen i (n ∷ rest) (here, later) =
    let (named, new) = check_name-nil (at i) seen n here in
    let noted = note_name_new seen i n named new in
    (
      named,
      All-map_imp (λ m h. (new_after n m i seen (subst (λ s. find m s ≡ none) noted h)).0) rest
          (silent-fresh at (note_name seen i n) (suc i) rest later),
      silent-AreDistinct at (note_name seen i n) (suc i) rest later,
    )
