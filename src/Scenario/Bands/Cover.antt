-- ===== src/Scenario/Bands/Cover.antt =====
-- The one band of each number of units (internal/scenario/validator_outcomes.go).
use mathlib.Core.List.{Perm, foldr}
use mathlib.Core.List.Perm
use native.Mathlib.Nat.{ℕ_set}
use aforo_nextgen_loadgen.Base.{
  pos, ℕ, suc, ◌≤◌, ◌<◌, Bool, true, false, ◌&&◌, String, none, List, [], ◌∷◌, length, ◌≡◌, ◌⊎◌,
  inl, inr, refl, sym, ap, ◌∙◌, arith, Bool-cases, if◌then◌else◌, leb, ltb, le→leb,
}
use aforo_nextgen_loadgen.Base.Floats.{Floats}
use aforo_nextgen_loadgen.Scenario.Bands.{enumerate, check_staircase_bands, check_bands_from}
use aforo_nextgen_loadgen.Scenario.Bands.Stairs.{holds, ends_below, IsChain, IsChain-of_bands}
use aforo_nextgen_loadgen.Scenario.Rates.{StaircaseBand}
use aforo_nextgen_loadgen.Scenario.Report.{Library}

module _ {A : Type 0} where
  -- How many elements pass a test.
  abbrev pub count : (A → Bool) → List A → ℕ
  count p xs = foldr (λ (x : A) (n : ℕ). if p x then suc n else n) 0 xs

  count-Perm : (p : A → Bool) (xs ys : List A) → Perm xs ys → count p xs ≡ count p ys
  count-Perm p xs ys π =
      Perm.foldr-eq ℕ_set (λ (x : A) (n : ℕ). if p x then suc n else n)
        (λ a b n. either (p a) (p b) n) π 0
    where
      either :
          (x y : Bool) (n : ℕ)
          → (if x then suc (if y then suc n else n) else (if y then suc n else n))
            ≡ (if y then suc (if x then suc n else n) else (if x then suc n else n))
      either true true n = refl
      either true false n = refl
      either false true n = refl
      either false false n = refl

module _ {A : Type 0} where
  count-all : (xs : List A) → count (λ x. true) xs ≡ length xs
  count-all [] = refl
  count-all (x ∷ xs) = ap suc (count-all xs)

  length-Perm : (xs ys : List A) → Perm xs ys → length xs ≡ length ys
  length-Perm xs ys π = sym (count-all xs) ∙ (count-Perm (λ x. true) xs ys π ∙ count-all ys)

module _ {F : Type 0} where
  abbrev holds_at : ℕ → ℕ × StaircaseBand F → Bool
  holds_at u p = holds u p.1

  abbrev ends_at : ℕ → ℕ × StaircaseBand F → Bool
  ends_at u p = ends_below u p.1

  count_take :
      (u : ℕ) (e : ℕ × StaircaseBand F) (bs : List (ℕ × StaircaseBand F))
      → holds u e.1 ≡ true
      → count (holds_at u) (e ∷ bs) ≡ suc (count (holds_at u) bs)
  count_take u e bs h = rw h refl

  count_skip :
      (u : ℕ) (e : ℕ × StaircaseBand F) (bs : List (ℕ × StaircaseBand F))
      → holds u e.1 ≡ false
      → count (holds_at u) (e ∷ bs) ≡ count (holds_at u) bs
  count_skip u e bs h = rw h refl

  holds_open :
      (u f : ℕ) (b : StaircaseBand F)
      → b.from_units ≡ pos f
      → b.to_units ≡ pos 0
      → holds u b ≡ leb f u
  holds_open u f b from_is to_is = rw (from_is, to_is) (ground arith)

  holds_closed :
      (u f t : ℕ) (b : StaircaseBand F)
      → b.from_units ≡ pos f
      → b.to_units ≡ pos t
      → 0 < t
      → holds u b ≡ leb f u && leb u t
  holds_closed u f t b from_is to_is positive = rw (from_is, to_is) (ground (arith, positive))

  ends_closed :
      (u t : ℕ) (b : StaircaseBand F) → b.to_units ≡ pos t → 0 < t → ends_below u b ≡ ltb t u
  ends_closed u t b to_is positive = rw to_is (ground (arith, positive))

  -- No band of a chain that starts above the units holds them.
  count-below :
      (u f : ℕ) (bs : List (ℕ × StaircaseBand F)) → IsChain f bs → u < f → count (holds_at u) bs ≡ 0
  count-below u f [] chain low = refl
  count-below u f ((i, b) ∷ rest) (from_is, inl (unbounded, last)) low =
      count_skip u (i, b) rest (holds_open u f b from_is unbounded ∙ ground (arith, low))
      ∙ ap (count (holds_at u)) last
  count-below u f ((i, b) ∷ rest) (from_is, inr (t, to_is, positive, up, chain)) low =
      count_skip u (i, b) rest (holds_closed u f t b from_is to_is positive ∙ ground (arith, low))
      ∙ count-below u (suc t) rest chain (omega (arith, low, up))

  -- A chain from `f` on that is at or below the units.
  chain-count :
      (u f : ℕ) (bs : List (ℕ × StaircaseBand F))
      → IsChain f bs
      → f ≤ u
      → (count (holds_at u) bs ≡ 1) ⊎ (count (ends_at u) bs ≡ length bs)
  chain-count u f [] chain low = inr refl
  chain-count u f ((i, b) ∷ rest) (from_is, inl (unbounded, last)) low = inl (
      count_take u (i, b) rest (holds_open u f b from_is unbounded ∙ le→leb f u low)
      ∙ ap (λ xs. suc (count (holds_at u) xs)) last)
  chain-count u f ((i, b) ∷ rest) (from_is, inr (t, to_is, positive, up, chain)) low =
      elim (Bool-cases (leb u t)) [
        | inl inside ↦ inl (
            count_take u (i, b) rest
              (holds_closed u f t b from_is to_is positive ∙ ground (arith, low, inside))
            ∙ ap suc (count-below u (suc t) rest chain (ground (arith, inside))))
        | inr outside ↦
            let passed : ends_below u b ≡ true =
              ends_closed u t b to_is positive ∙ ground (arith, outside) in
            let skipped =
              count_skip u (i, b) rest
                (holds_closed u f t b from_is to_is positive ∙ ground (arith, outside)) in
            elim (chain-count u (suc t) rest chain (ground (arith, outside))) [
              | inl one ↦ inl (skipped ∙ one)
              | inr all ↦ inr (rw passed (ap suc all))
            ]
      ]

module _ (fl : Floats) (lib : Library fl.Float) where
  count-enumerate :
      (p : StaircaseBand fl.Float → Bool) (i : ℕ) (bs : List (StaircaseBand fl.Float))
      → count (λ (e : ℕ × StaircaseBand fl.Float). p e.1) (enumerate fl lib i bs) ≡ count p bs
  unfolding enumerate
  count-enumerate p i [] = refl
  count-enumerate p i (b ∷ bs) = ap (λ n. if p b then suc n else n) (count-enumerate p (suc i) bs)

  length-enumerate :
      (i : ℕ) (bs : List (StaircaseBand fl.Float)) → length (enumerate fl lib i bs) ≡ length bs
  unfolding enumerate
  length-enumerate i [] = refl
  length-enumerate i (b ∷ bs) = ap suc (length-enumerate (suc i) bs)

  checked_order :
      (path : List String) (u : ℕ) (bs : List (ℕ × StaircaseBand fl.Float))
      → check_bands_from fl lib path none bs ≡ []
      → 1 ≤ u
      → (count (holds_at u) bs ≡ 1) ⊎ (count (ends_at u) bs ≡ length bs)
  checked_order path u [] e h = inr refl
  checked_order path u ((i, b) ∷ rest) e h =
      let (f, low, chain) = IsChain-of_bands fl lib path i b rest e in
      chain-count u f ((i, b) ∷ rest) chain (omega (arith, low, h))

  -- Where the sort permutes the bands and the validator reports nothing about them, a whole number of units
  -- from 1 on is in exactly one of the bands, or above the end of every one.
  pub check_staircase_bands-covers :
      (path : List String) (bands : List (StaircaseBand fl.Float)) (u : ℕ)
      → Perm (lib.sort_order (enumerate fl lib 0 bands)) (enumerate fl lib 0 bands)
      → check_staircase_bands fl lib path bands ≡ []
      → 1 ≤ u
      → (count (holds u) bands ≡ 1) ⊎ (count (ends_below u) bands ≡ length bands)
  unfolding check_staircase_bands
  check_staircase_bands-covers path [] u π e h = inr refl
  check_staircase_bands-covers path (b ∷ bands) u π e h =
      let back : (p : StaircaseBand fl.Float → Bool)
          → count (λ (x : ℕ × StaircaseBand fl.Float). p x.1)
              (lib.sort_order (enumerate fl lib 0 (b ∷ bands)))
            ≡ count p (b ∷ bands) =
        λ p.
          count-Perm (λ (x : ℕ × StaircaseBand fl.Float). p x.1) _ _ π
          ∙ count-enumerate p 0 (b ∷ bands) in
      elim (checked_order path u (lib.sort_order (enumerate fl lib 0 (b ∷ bands))) e h) [
        | inl one ↦ inl (sym (back (holds u)) ∙ one)
        | inr all ↦ inr (
            sym (back (ends_below u))
            ∙ (all ∙ (length-Perm _ _ π ∙ length-enumerate 0 (b ∷ bands))))
      ]
