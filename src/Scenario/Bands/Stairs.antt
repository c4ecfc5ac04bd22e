-- ===== src/Scenario/Bands/Stairs.antt =====
-- The bands that checkStaircaseBands lets pass (internal/scenario/validator_outcomes.go).
use aforo_nextgen_loadgen.Base.{
  ℤ, pos, negsuc, lez, ltz, eqz, sucz, eqz-sucz, ℕ, suc, ◌≤◌, ◌<◌, Bool, true, false, not, ◌&&◌,
  ◌||◌, String, Option, none, some, List, [], ◌∷◌, ◌++◌, ◌≡◌, ◌⊎◌, inl, inr, refl, sym, ap, ◌∙◌,
  subst, arith, if◌then◌else◌,
}
use aforo_nextgen_loadgen.Base.Floats.{Floats}
use aforo_nextgen_loadgen.Scenario.Bands.{is_empty, check_after, check_band, check_bands_from}
use aforo_nextgen_loadgen.Scenario.Rates.{StaircaseBand}
use aforo_nextgen_loadgen.Scenario.Report.{
  Rule, Library, report_if, append-nil_iff, report_if-nil, branch-nil, not-false,
}

module _ {F : Type 0} where
  -- A whole number of units in a band: `From <= u && (To == 0 || u <= To)`.
  abbrev pub holds : ℕ → StaircaseBand F → Bool
  holds u b = lez b.from_units (pos u) && (eqz b.to_units (pos 0) || lez (pos u) b.to_units)

  -- A band with an end, below the units.
  abbrev pub ends_below : ℕ → StaircaseBand F → Bool
  ends_below u b = not (eqz b.to_units (pos 0)) && ltz b.to_units (pos u)

  -- Bands that follow each other, the first from `f` on: only the last may have no end.
  abbrev pub IsChain : ℕ → List (ℕ × StaircaseBand F) → Type 0
  IsChain f [] = Unit
  IsChain f ((i, b) ∷ rest) =
      (b.from_units ≡ pos f)
      × (((b.to_units ≡ pos 0) × (rest ≡ []))
          ⊎ ((t : ℕ) × (b.to_units ≡ pos t) × (0 < t) × (f ≤ t) × IsChain (suc t) rest))

-- What the integers of a band are, by its four tests.
from_cases : (a : ℤ) → ltz a (pos 0) ≡ false → (f : ℕ) × (a ≡ pos f)
from_cases (pos n) e = (n, refl)
from_cases (negsuc n) e = ground (arith, e)

pub eqz_eq : (a : ℤ) (n : ℕ) → eqz a (pos n) ≡ true → a ≡ pos n
eqz_eq (pos m) n e = ap pos (ground (arith, e))
eqz_eq (negsuc m) n e = ground (arith, e)

to_cases :
    (a from : ℤ) (f : ℕ)
    → from ≡ pos f
    → eqz a (pos 0) ≡ false
    → ltz a from ≡ false
    → (t : ℕ) × (a ≡ pos t) × (0 < t) × (f ≤ t)
to_cases a (negsuc m) f same e le = absurd cc
to_cases (pos n) (pos m) f same e le =
    let m_is : lez (pos f) (pos n) ≡ lez (pos m) (pos n) = ap (λ z. lez z (pos n)) (sym same) in
    (n, refl, ground (arith, e), ground (arith, le, m_is))
to_cases (negsuc n) (pos m) f same e le = ground (arith, le)

ends_cases :
    (is_last : Bool) (to from : ℤ) (f : ℕ) (at : List String) (r s : Rule)
    → from ≡ pos f
    → (if eqz to (pos 0) then report_if (not is_last) at r else report_if (ltz to from) at s) ≡ []
    → ((to ≡ pos 0) × (is_last ≡ true)) ⊎ ((t : ℕ) × (to ≡ pos t) × (0 < t) × (f ≤ t))
ends_cases is_last to from f at r s same e = elim (branch-nil (eqz to (pos 0)) _ _ e) [
  | inl (unbounded, silent) ↦
      inl (eqz_eq to 0 unbounded, not-false is_last (report_if-nil _ at r silent))
  | inr (bounded, silent) ↦ inr (to_cases to from f same bounded (report_if-nil _ at s silent))
]

pub is_empty-nil : {A : Type 0} (xs : List A) → is_empty xs ≡ true → xs ≡ []
is_empty-nil [] e = refl
is_empty-nil (x ∷ xs) e = absurd cc

module _ (fl : Floats) (lib : Library fl.Float) where
  -- A band with no report, where it may begin at `f`.
  abbrev BandFacts : Bool → StaircaseBand fl.Float → Type 0
  BandFacts is_last b =
      (f : ℕ) × (b.from_units ≡ pos f)
      × (((b.to_units ≡ pos 0) × (is_last ≡ true))
          ⊎ ((t : ℕ) × (b.to_units ≡ pos t) × (0 < t) × (f ≤ t)))

  check_band-nil :
      (path : List String) (prev : Option (StaircaseBand fl.Float)) (is_last : Bool) (i : ℕ)
      (b : StaircaseBand fl.Float)
      → check_band fl lib path prev is_last i b ≡ []
      → BandFacts is_last b
        × (check_after fl lib (path ++ lib.index_seg i ∷ [] ++ "from_units" ∷ []) prev b ≡ [])
  unfolding check_band
  check_band-nil path prev is_last i b e =
      let (front, ends) = (append-nil_iff _ _).0 e in
      let (prices, after) = (append-nil_iff _ _).0 front in
      let (price, starts) = (append-nil_iff _ _).0 prices in
      let (f, from_is) = from_cases b.from_units (report_if-nil _ _ _ starts) in
      ((f, from_is, ends_cases is_last b.to_units b.from_units f _ _ _ from_is ends), after)

  next_start :
      (prev b : StaircaseBand fl.Float) (at : List String) (t f : ℕ)
      → check_after fl lib at (some prev) b ≡ []
      → prev.to_units ≡ pos t
      → 0 < t
      → b.from_units ≡ pos f
      → f ≡ suc t
  unfolding check_after
  next_start prev b at t f e to_is positive from_is =
      let quiet : not (eqz (pos t) (pos 0)) && not (eqz (pos f) (sucz (pos t))) ≡ false =
        subst (λ x. not (eqz x (pos 0)) && not (eqz (pos f) (sucz x)) ≡ false) to_is
          (subst (λ x. not (eqz prev.to_units (pos 0)) && not (eqz x (sucz prev.to_units)) ≡ false)
            from_is (report_if-nil _ at _ e)) in
      let some_end : eqz (pos t) (pos 0) ≡ false = ground (arith, positive) in
      eqz-sucz f t (
        not-false _ (subst (λ x. not x && not (eqz (pos f) (sucz (pos t))) ≡ false) some_end quiet))

  check_bands_from-IsChain :
      (path : List String) (prev : StaircaseBand fl.Float) (t : ℕ)
      (bs : List (ℕ × StaircaseBand fl.Float))
      → prev.to_units ≡ pos t
      → 0 < t
      → check_bands_from fl lib path (some prev) bs ≡ []
      → IsChain (suc t) bs
  unfolding check_bands_from
  check_bands_from-IsChain path prev t [] to_is positive e = tt
  check_bands_from-IsChain path prev t ((i, b) ∷ rest) to_is positive e =
      let (here, later) = (append-nil_iff _ _).0 e in
      let ((f, from_is, ends), after) = check_band-nil path (some prev) (is_empty rest) i b here in
      let start = next_start prev b _ t f after to_is positive from_is in
      (
        from_is ∙ ap pos start,
        elim ends [
          | inl (unbounded, is_last) ↦ inl (unbounded, is_empty-nil rest is_last)
          | inr (top, top_is, above, up) ↦ inr (
            top,
            top_is,
            above,
            omega (arith, start, up),
            check_bands_from-IsChain path b top rest top_is above later,
          )
        ],
      )

  -- The first band begins at 0 or at 1.
  pub IsChain-of_bands :
      (path : List String) (i : ℕ) (b : StaircaseBand fl.Float)
      (rest : List (ℕ × StaircaseBand fl.Float))
      → check_bands_from fl lib path none ((i, b) ∷ rest) ≡ []
      → (f : ℕ) × (f ≤ 1) × IsChain f ((i, b) ∷ rest)
  unfolding check_bands_from check_after
  IsChain-of_bands path i b rest e =
      let (here, later) = (append-nil_iff _ _).0 e in
      let ((f, from_is, ends), after) = check_band-nil path none (is_empty rest) i b here in
      let low : ltz (pos 1) (pos f) ≡ false =
        subst (λ x. ltz (pos 1) x ≡ false) from_is (report_if-nil _ _ _ after) in
      (
        f,
        ground (arith, low),
        (
          from_is,
          elim ends [
            | inl (unbounded, is_last) ↦ inl (unbounded, is_empty-nil rest is_last)
            | inr (top, top_is, above, up) ↦ inr (
              top,
              top_is,
              above,
              up,
              check_bands_from-IsChain path b top rest top_is above later,
            )
          ],
        ),
      )
