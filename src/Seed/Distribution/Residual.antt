-- ===== src/Seed/Distribution/Residual.antt =====
-- Where the remainder of a mix goes (internal/seed/distribution.go).
use mathlib.Core.List.{List, [], ◌∷◌}
use aforo_nextgen_loadgen.Base.{ℕ, zero, suc, ◌+◌, ◌≡◌, set, true, false, ◌⊎◌, All}
use aforo_nextgen_loadgen.Base.Floats.{Floats}
use aforo_nextgen_loadgen.Seed.Distribution.{count_at}

-- counts[i] += k
abbrev pub raise : List ℕ → ℕ → ℕ → List ℕ
raise counts i k = set counts i (count_at counts i + k)

module _ (fl : Floats) where
  -- `w` is the highest of the weights, and the one at this index is the first that is as high.
  abbrev pub FirstMax : List fl.Float → ℕ → fl.Float → Type 0
  FirstMax [] i w = ⊥
  FirstMax (v ∷ vs) zero w = (v ≡ w) × (fl.le v w ≡ true) × All (λ u. fl.le u w ≡ true) vs
  FirstMax (v ∷ vs) (suc i) w = (fl.le v w ≡ true) × (fl.le w v ≡ false) × FirstMax vs i w

  -- What the scan finds: the best so far, or a first highest weight above it.
  Scanned : List fl.Float → ℕ → ℕ → fl.Float → ℕ → Type 0
  Scanned ws i best w found =
      ((found ≡ best) × All (λ u. fl.le u w ≡ true) ws)
      ⊎ ((k : ℕ) × (u : fl.Float) × (found ≡ i + k)
          × (fl.le w u ≡ true)
          × (fl.le u w ≡ false)
          × FirstMax ws k u)
