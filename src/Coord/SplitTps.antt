-- ===== src/Coord/SplitTps.antt =====
-- How the target rate is divided: splitTPS of internal/coord/coordinator.go. A number that is
-- negative counts as zero here; for a negative n the code's make panics, but n is a length.
use native.Mathlib.Nat.{mod-lt, div-add-mod, div-eq_of_lt, mul-suc, mul-zero, mul_comm}
use Prim.Native.Nat.{min}
use aforo_nextgen_loadgen.Base.{
  ℕ, zero, suc, ◌+◌, ◌*◌, ◌/◌, ◌%◌, ◌≤◌, ◌<◌, ◌-◌, ◌≡◌, refl, ap, ◌∙◌, List, [], ◌∷◌, All, arith,
  length, replicate, ltb, ◌==◌, if◌then◌else◌,
}

-- out[i]: the base, one more for the first `rem`, and at least one.
unfoldable pub share : ℕ → ℕ → ℕ → ℕ
share base rem i = let k = if ltb i rem then base + 1 else base in if k == 0 then 1 else k

-- The loop from `i` on, with `left` turns to go.
unfoldable pub shares_from : ℕ → ℕ → ℕ → ℕ → List ℕ
unfolding share
shares_from base rem i zero = []
shares_from base rem i (suc left) = share base rem i ∷ shares_from base rem (suc i) left

unfoldable pub split_tps : ℕ → ℕ → List ℕ
unfolding shares_from
split_tps total zero = []
split_tps zero (suc n) = replicate (suc n) 0
split_tps (suc t) (suc n) = shares_from (suc t / suc n) (suc t % suc n) 0 (suc n)

abbrev pub sum : List ℕ → ℕ
sum [] = 0
sum (k ∷ ks) = k + sum ks

-- With a base of at least one, what the turns from `i` on get is the bases and what is left of the
-- remainder.
sum-shares_from :
    (base rem i left : ℕ)
    → 0 < base
    → sum (shares_from base rem i left) ≡ base * left + (min (i + left) rem - min i rem)
unfolding shares_from share
sum-shares_from base rem i zero h = omega (arith, mul-zero base)
sum-shares_from base rem i (suc left) h =
    let rest = sum-shares_from base rem (suc i) left h in ground (arith, rest, mul-suc base left)

-- Without a base, each turn gets one.
sum-ones : (rem i left : ℕ) → sum (shares_from 0 rem i left) ≡ left
unfolding shares_from share
sum-ones rem i zero = refl
sum-ones rem i (suc left) = let rest = sum-ones rem (suc i) left in ground (arith, rest)

base_pos : (base rem total n : ℕ) → n * base + rem ≡ total → rem < n → n ≤ total → 0 < base
base_pos zero rem total n whole small enough = absurd (omega (arith, mul-zero n))
base_pos (suc b) rem total n whole small enough = omega arith

sum_without : (base rem n : ℕ) → base ≡ 0 → sum (shares_from base rem 0 n) ≡ n
sum_without base rem n none_each = rw none_each (sum-ones rem 0 n)

length-shares_from : (base rem i left : ℕ) → length (shares_from base rem i left) ≡ left
unfolding shares_from
length-shares_from base rem i zero = refl
length-shares_from base rem i (suc left) = ap suc (length-shares_from base rem (suc i) left)

-- A share of a positive total is never zero, and no two shares are further apart than one.
abbrev pub IsFair : ℕ → ℕ → Type 0
IsFair base k = (1 ≤ k) × (base ≤ k) × (k ≤ base + 1)

shares_from-IsFair : (base rem i left : ℕ) → All (IsFair base) (shares_from base rem i left)
unfolding shares_from share
shares_from-IsFair base rem i zero = tt
shares_from-IsFair base rem i (suc left) =
    ((ground arith, ground arith, ground arith), shares_from-IsFair base rem (suc i) left)

-- For a positive total there is a share for each worker; the shares are at least one and differ by
-- at most one. They add up to the total where it is enough for all, and otherwise to the number of
-- workers, which is more than the total.
pub sum-split_tps :
    (total n : ℕ)
    → 0 < total
    → 0 < n
    → (length (split_tps total n) ≡ n)
      × All (IsFair (total / n)) (split_tps total n)
      × (n ≤ total → sum (split_tps total n) ≡ total)
      × (total < n → sum (split_tps total n) ≡ n)
unfolding split_tps
sum-split_tps zero n t h = absurd (omega arith)
sum-split_tps (suc t) zero p h = absurd (omega arith)
sum-split_tps (suc t) (suc n) p h =
    let base = suc t / suc n in
    let rem = suc t % suc n in
    let whole = div-add-mod (suc t) (suc n) in
    let small : rem < suc n = mod-lt (suc t) h in
    (
      length-shares_from base rem 0 (suc n),
      shares_from-IsFair base rem 0 (suc n),
      λ enough.
          sum-shares_from base rem 0 (suc n) (base_pos base rem (suc t) (suc n) whole small enough)
          ∙ omega (arith, whole, small, mul_comm base (suc n)),
      λ few. sum_without base rem (suc n) (div-eq_of_lt few),
    )
