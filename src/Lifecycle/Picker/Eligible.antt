-- ===== src/Lifecycle/Picker/Eligible.antt =====
-- Which subjects PickFor returns (internal/lifecycle/picker.go).
use aforo_nextgen_loadgen.Base.{
  get_elem?_total, ℕ, zero, suc, ◌+◌, ◌<◌, true, false, ◌≡◌, refl, inl, inr, none, some, List, [],
  ◌∷◌, length, get_elem?, All, arith, subst, Bool-cases,
}
use aforo_nextgen_loadgen.Lifecycle.StateMachine.{TransitionKind, can_fire_from}
use aforo_nextgen_loadgen.Lifecycle.Picker.{
  Subject, Picker, live_state, is_suspended, count_eligible, eligible_count, candidates, draw,
  pick_for,
}

-- A subject that `kind` may be fired on: it carries the agent's current view of its state, the filter
-- lets the kind through from that state, and nobody holds it back.
pub record IsEligible {S : Type 0} (p : Picker S) (kind : TransitionKind) (s : Subject)
    : Type 0 where
  pub current : s.state ≡ live_state p s.subscription_id
  pub fires : can_fire_from kind s.state ≡ true
  pub free : is_suspended p s.subscription_id ≡ false

-- math/rand: Intn(n) lies in [0, n) for a positive n.
abbrev pub InRange : {S : Type 0} → (S → ℕ → ℕ × S) → Type 0
InRange {S} intn = (r : S) (n : ℕ) → 0 < n → (intn r n).0 < n

module _ {S : Type 0} where
  count_eligible-candidates :
      (p : Picker S) (kind : TransitionKind) (xs : List Subject) (n : ℕ)
      → count_eligible p kind xs n ≡ n + length (candidates p kind xs)
  unfolding count_eligible candidates
  count_eligible-candidates p kind [] n = omega arith
  count_eligible-candidates p kind (s ∷ rest) n =
      elim (Bool-cases (is_suspended p s.subscription_id)) [
        | inl held ↦ rw held (count_eligible-candidates p kind rest n)
        | inr free ↦ elim (Bool-cases (can_fire_from kind (live_state p s.subscription_id))) [
          | inl fires ↦
              rw (free, fires) (omega (arith, count_eligible-candidates p kind rest (suc n)))
          | inr stuck ↦ rw (free, stuck) (count_eligible-candidates p kind rest n)
        ]
      ]

  candidates-IsEligible :
      (p : Picker S) (kind : TransitionKind) (xs : List Subject)
      → All (IsEligible p kind) (candidates p kind xs)
  unfolding candidates
  candidates-IsEligible p kind [] = tt
  candidates-IsEligible p kind (s ∷ rest) = elim (Bool-cases (is_suspended p s.subscription_id)) [
    | inl held ↦ rw held (candidates-IsEligible p kind rest)
    | inr free ↦ elim (Bool-cases (can_fire_from kind (live_state p s.subscription_id))) [
      | inl fires ↦
          rw (free, fires)
            (
              record { current = refl; fires = fires; free = free },
              candidates-IsEligible p kind rest,
            )
      | inr stuck ↦ rw (free, stuck) (candidates-IsEligible p kind rest)
    ]
  ]

get_elem?-All {ℓ κ} :
    {A : Type ℓ} (P : A → Type κ) (xs : List A) (i : ℕ) {x : A}
    → All P xs
    → get_elem? xs i ≡ some x
    → P x
get_elem?-All P [] i h e = cc
get_elem?-All P (y ∷ xs) zero h e = subst P (cc) h.0
get_elem?-All P (y ∷ xs) (suc i) h e = get_elem?-All P xs i h.1 e

module _ {S : Type 0} (intn : S → ℕ → ℕ × S) where
  draw-All {ℓ κ} :
      {A : Type ℓ} (P : A → Type κ) (p : Picker S) (xs : List A) {x : A}
      → All P xs
      → (draw intn p xs).0 ≡ some x
      → P x
  unfolding draw
  draw-All P p [] h e = cc
  draw-All P p (y ∷ xs) h e = get_elem?-All P (y ∷ xs) (intn p.rng (suc (length xs))).0 h e

  draw_total {ℓ} :
      {A : Type ℓ} (p : Picker S) (xs : List A)
      → InRange intn
      → 0 < length xs
      → (x : A) × ((draw intn p xs).0 ≡ some x)
  unfolding draw
  draw_total p [] range h = absurd (omega arith)
  draw_total p (y ∷ xs) range h =
      get_elem?_total (y ∷ xs) (intn p.rng (suc (length xs))).0 (range p.rng (suc (length xs)) h)

  -- Whatever PickFor returns is eligible: the subject carries the agent's view of its state, which is one that
  -- the kind can fire from, and it is not held back at the time of the pick.
  pub pick_for-IsEligible :
      (p : Picker S) (kind : TransitionKind) {s : Subject}
      → (pick_for intn p kind).0 ≡ some s
      → IsEligible p kind s
  unfolding pick_for
  pick_for-IsEligible p kind e =
      draw-All (IsEligible p kind) p (candidates p kind p.subjects)
        (candidates-IsEligible p kind p.subjects) e

  -- PickFor finds a subject whenever EligibleCount is positive, and none when it is zero.
  pub pick_for-eligible_count :
      (p : Picker S) (kind : TransitionKind)
      → InRange intn
      → (0 < eligible_count p kind → (s : Subject) × ((pick_for intn p kind).0 ≡ some s))
        × (eligible_count p kind ≡ 0 → (pick_for intn p kind).0 ≡ none)
  unfolding pick_for eligible_count
  pick_for-eligible_count p kind range = (
    λ h.
        draw_total p (candidates p kind p.subjects) range
          (omega (arith, count_eligible-candidates p kind p.subjects 0)),
    λ h.
        none_drawn (candidates p kind p.subjects)
          (omega (arith, count_eligible-candidates p kind p.subjects 0)),
  )
    where
      none_drawn : (xs : List Subject) → length xs ≡ 0 → (draw intn p xs).0 ≡ none
      none_drawn [] h = refl
      none_drawn (x ∷ xs) h = absurd (omega arith)
