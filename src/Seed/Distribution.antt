-- ===== src/Seed/Distribution.antt =====
-- How a mix of weights becomes concrete values: distribution.go of internal/seed. The entries of a map
-- come in the order of their keys, as the code sorts them. Weights are not negative.
use aforo_nextgen_loadgen.Base.{
  ℕ, zero, suc, ◌+◌, ◌-◌, ◌<◌, Bool, true, false, String, Option, none, some, List, [], ◌∷◌, ◌++◌,
  map, length, get_elem?, set, replicate, ltb, if◌then◌else◌,
}
use aforo_nextgen_loadgen.Base.Floats.{Floats}
pub mod Residual
pub mod Draw

-- The copies of each key, one key after the other.
unfoldable pub expand {ℓ} : {K : Type ℓ} → List K → List ℕ → List K
expand [] counts = []
expand (k ∷ ks) [] = []
expand (k ∷ ks) (c ∷ cs) = replicate c k ++ expand ks cs

abbrev pub count_at : List ℕ → ℕ → ℕ
count_at counts i = elim (get_elem? counts i) [ none ↦ 0 | some c ↦ c ]

abbrev pub total_of : List ℕ → ℕ
total_of [] = 0
total_of (c ∷ cs) = c + total_of cs

-- counts[i]++
unfoldable pub bump_at : List ℕ → ℕ → List ℕ
bump_at counts i = set counts i (suc (count_at counts i))

module _ (fl : Floats) where
  unfoldable pub sum_weights : fl.Float → List fl.Float → fl.Float
  sum_weights total [] = total
  sum_weights total (w ∷ ws) = sum_weights (fl.add total w) ws

  -- The first index of the highest weight: the scan from `i` on, with the best so far.
  unfoldable pub scan_max : List fl.Float → ℕ → ℕ → fl.Float → ℕ
  scan_max [] i best w = best
  scan_max (v ∷ vs) i best w =
      let higher = scan_max vs (suc i) i v in
      let same = scan_max vs (suc i) best w in if fl.lt w v then higher else same

  unfoldable pub max_index : List fl.Float → ℕ
  unfolding scan_max
  max_index [] = 0
  max_index (w ∷ ws) = scan_max (w ∷ ws) 0 0 w

  -- int((weight / total) * float64(n))
  unfoldable pub share_count : fl.Float → ℕ → fl.Float → ℕ
  share_count total n w = fl.to_int (fl.mul (fl.quot w total) (fl.of_int n))

  -- for allocated < n { counts[maxIdx]++; allocated++ }, on fuel; `none` means that it ran out.
  unfoldable pub hand_out : ℕ → List fl.Float → List ℕ → ℕ → ℕ → Option (List ℕ)
  unfolding max_index bump_at
  hand_out zero ws counts allocated n = if ltb allocated n then none else some counts
  hand_out (suc fuel) ws counts allocated n =
      let more = hand_out fuel ws (bump_at counts (max_index ws)) (suc allocated) n in
      if ltb allocated n then more else some counts

  module _ {ℓ} {K : Type ℓ} where
    -- The proportional split of both functions; n turns are enough.
    unfoldable pub apportion : List K → List fl.Float → fl.Float → ℕ → Option (List K)
    unfolding share_count hand_out expand
    apportion keys weights total n =
        let counts = map (share_count total n) weights in
        elim (hand_out n weights counts (total_of counts) n) [
          | none ↦ none
          | some final ↦ some (expand keys final)
        ]

    -- distributeStates: `active` stands in for a mix that says nothing.
    unfoldable pub distribute_states : K → List K → List fl.Float → ℕ → Option (List K)
    unfolding apportion sum_weights
    distribute_states active keys weights zero = some []
    distribute_states active [] weights (suc n) = some (replicate (suc n) active)
    distribute_states active (k ∷ ks) weights (suc n) =
        let total = sum_weights (fl.of_int 0) weights in
        if fl.le total (fl.of_int 0)
        then some (replicate (suc n) active)
        else apportion (k ∷ ks) weights total (suc n)

    -- distributeCurrencies: as above, but a total of zero is divided by.
    unfoldable pub distribute_currencies : K → List K → List fl.Float → ℕ → Option (List K)
    unfolding apportion sum_weights
    distribute_currencies usd keys weights zero = some []
    distribute_currencies usd [] weights (suc n) = some (replicate (suc n) usd)
    distribute_currencies usd (k ∷ ks) weights (suc n) =
        apportion (k ∷ ks) weights (sum_weights (fl.of_int 0) weights) (suc n)

  -- The first key whose cumulated weight reaches `r`, and otherwise the last.
  unfoldable pub pick_key :
      fl.Float → fl.Float → String → fl.Float → List (String × fl.Float) → String
  pick_key r cum k w [] = k
  pick_key r cum k w ((j, v) ∷ rest) =
      let next = fl.add cum w in
      let later = pick_key r next j v rest in if fl.le r next then k else later

  -- `draw` is rng.Float64().
  unfoldable pub weighted_draw : List (String × fl.Float) → fl.Float → String
  unfolding pick_key sum_weights
  weighted_draw [] draw = ""
  weighted_draw ((k, w) ∷ rest) draw =
      let total = sum_weights (fl.of_int 0) (w ∷ map (λ (e : String × fl.Float). e.1) rest) in
      if fl.le total (fl.of_int 0) then k else pick_key (fl.mul draw total) (fl.of_int 0) k w rest
