-- ===== src/Seed/Distribution/Draw.antt =====
-- A draw from weights (internal/seed/distribution.go).
use mathlib.Core.List.{List, [], ◌∷◌, map}
use aforo_nextgen_loadgen.Base.{◌≡◌, refl, ◌⊎◌, inl, inr, String, Bool-cases}
use aforo_nextgen_loadgen.Base.Floats.{Floats}
use aforo_nextgen_loadgen.Seed.Distribution.{pick_key, weighted_draw, sum_weights}

module _ (fl : Floats) where
  -- A key of the map.
  abbrev pub IsKeyOf : List (String × fl.Float) → String → Type 0
  IsKeyOf [] k = ⊥
  IsKeyOf ((j, w) ∷ rest) k = (k ≡ j) ⊎ IsKeyOf rest k

  pick_key-IsKeyOf :
      (r cum : fl.Float) (k : String) (w : fl.Float) (rest : List (String × fl.Float))
      → IsKeyOf ((k, w) ∷ rest) (pick_key fl r cum k w rest)
  unfolding pick_key
  pick_key-IsKeyOf r cum k w [] = inl refl
  pick_key-IsKeyOf r cum k w ((j, v) ∷ rest) = elim (Bool-cases (fl.le r (fl.add cum w))) [
    | inl here ↦ rw (here, pick_key) (inl refl)
    | inr later ↦ rw (later, pick_key) (inr (pick_key-IsKeyOf r (fl.add cum w) j v rest))
  ]

  -- Whatever the weights and the draw, a draw from a map that is not empty is one of its keys.
  pub weighted_draw-IsKeyOf :
      (k : String) (w : fl.Float) (rest : List (String × fl.Float)) (draw : fl.Float)
      → IsKeyOf ((k, w) ∷ rest) (weighted_draw fl ((k, w) ∷ rest) draw)
  unfolding weighted_draw
  weighted_draw-IsKeyOf k w rest draw =
      let total = sum_weights fl (fl.of_int 0) (w ∷ map (λ (e : String × fl.Float). e.1) rest) in
      elim (Bool-cases (fl.le total (fl.of_int 0))) [
        | inl nothing ↦ rw (nothing, weighted_draw) (inl refl)
        | inr something ↦
            rw (something, weighted_draw)
              (pick_key-IsKeyOf (fl.mul draw total) (fl.of_int 0) k w rest)
      ]
