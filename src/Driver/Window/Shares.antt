-- ===== src/Driver/Window/Shares.antt =====
-- What each bucket of the ring adds to a tally (internal/driver/circuit_breaker.go).
use native.Mathlib.Nat.{div-add-mod, lt_of_mul-lt-mul_left, mul-le-mul_left}
use aforo_nextgen_loadgen.Base.{
  ℕ, zero, suc, ◌+◌, ◌*◌, ◌/◌, ◌%◌, ◌≤◌, ◌<◌, ◌≡◌, refl, ap, Bool, not, true, false, none, some,
  List, [], ◌∷◌, inl, inr, ◌⊎◌, arith, get_elem?, set, replicate, leb, if◌then◌else◌, Bool-cases,
  Option-cases,
}
use aforo_nextgen_loadgen.Driver.Window.{Bucket, second, empty_bucket, is_of, bump, is_live, tally}

-- An outcome with its time in nanoseconds.
pub record Event : Type 0 where
  pub at : ℕ
  pub ok : Bool

-- How many outcomes of a list, successes or failures, fall in the last `size` seconds up to the
-- second `t`.
unfoldable pub recent : Bool → ℕ → ℕ → List Event → ℕ
recent kind size t [] = 0
recent kind size t (e ∷ rest) =
    let later = recent kind size t rest in
    if leb (e.at / second + size) t
    then later
    else if same_outcome kind e.ok
    then suc later
    else later
  where
    same_outcome : Bool → Bool → Bool
    same_outcome true b = b
    same_outcome false b = not b

abbrev pub counted : Bool → Bucket → ℕ
counted true b = b.succ
counted false b = b.fail

-- What a bucket adds to a tally at the second `t`.
abbrev pub share : Bool → ℕ → ℕ → Bucket → ℕ
share kind size t b = elim b.tsec [
  | none ↦ 0
  | some q ↦ if leb (q + size) t then 0 else counted kind b
]

abbrev pub shares : Bool → ℕ → ℕ → List Bucket → ℕ
shares kind size t [] = 0
shares kind size t (b ∷ rest) = share kind size t b + shares kind size t rest

pub live_share :
    (kind : Bool) (size now : ℕ) (b : Bucket)
    → (if is_live (size * second) now b then counted kind b else 0)
      ≡ share kind size (now / second) b
unfolding is_live
live_share kind size now b = elim (Option-cases b.tsec) [
  | inl e ↦ rw e refl
  | inr (q, e) ↦ rw e (ground arith)
]

pub tally-shares :
    (size now : ℕ) (bs : List Bucket)
    → tally (size * second) now bs
      ≡ (shares true size (now / second) bs, shares false size (now / second) bs)
unfolding tally
tally-shares size now [] = refl
tally-shares size now (b ∷ rest) =
    let rest_sums = tally-shares size now rest in
    elim (Bool-cases (is_live (size * second) now b)) [
      | inl live ↦
          rw (live, rest_sums)
            (ground (arith, live_share true size now b, live_share false size now b, live))
      | inr old ↦
          rw (old, rest_sums)
            (ground (arith, live_share true size now b, live_share false size now b, old))
    ]

-- Writing one bucket moves a sum by the difference of the shares.
pub shares-set :
    (kind : Bool) (size t : ℕ) (bs : List Bucket) (i : ℕ) {b : Bucket} (c : Bucket)
    → get_elem? bs i ≡ some b
    → shares kind size t (set bs i c) + share kind size t b
      ≡ shares kind size t bs + share kind size t c
shares-set kind size t [] i c e = cc
shares-set kind size t (x ∷ xs) zero c e =
    omega (arith, ap {B = ℕ} (λ o. elim o [ none ↦ 0 | some y ↦ share kind size t y ]) e)
shares-set kind size t (x ∷ xs) (suc i) c e = omega (arith, shares-set kind size t xs i c e)

-- Two seconds of one slot are a whole window apart.
pub slot_apart : (size q t : ℕ) → 0 < size → q < t → q % size ≡ t % size → q + size ≤ t
slot_apart size q t h lt e =
    let below : q / size < t / size =
      lt_of_mul-lt-mul_left size (omega (arith, div-add-mod q size, div-add-mod t size)) in
    omega (arith, div-add-mod q size, div-add-mod t size, mul-le-mul_left size below)

-- A bump adds one to the share of its outcome, and what it throws away no longer counts.
pub share-bump :
    (kind ok : Bool) (size now t : ℕ) (b : Bucket) (events : List Event)
    → now / second ≤ t
    → (b.tsec ≡ none)
      ⊎ ((q : ℕ) × (b.tsec ≡ some q)
          × ((q ≡ now / second) ⊎ (q < now / second) × (q + size ≤ now / second)))
    → share kind size t (bump (now / second) ok b) + recent kind size t events
      ≡ share kind size t b + recent kind size t (record { at = now; ok = ok } ∷ events)
unfolding bump recent is_of
share-bump true true size now t b events after (inl e) = rw e (ground (arith, e))
share-bump true false size now t b events after (inl e) = rw e (ground (arith, e))
share-bump false true size now t b events after (inl e) = rw e (ground (arith, e))
share-bump false false size now t b events after (inl e) = rw e (ground (arith, e))
share-bump true true size now t b events after (inr (q, e, inl same)) = rw e (ground (arith, e))
share-bump true true size now t b events after (inr (q, e, inr old)) = rw e (ground (arith, e))
share-bump true false size now t b events after (inr (q, e, inl same)) = rw e (ground (arith, e))
share-bump true false size now t b events after (inr (q, e, inr old)) = rw e (ground (arith, e))
share-bump false true size now t b events after (inr (q, e, inl same)) = rw e (ground (arith, e))
share-bump false true size now t b events after (inr (q, e, inr old)) = rw e (ground (arith, e))
share-bump false false size now t b events after (inr (q, e, inl same)) = rw e (ground (arith, e))
share-bump false false size now t b events after (inr (q, e, inr old)) = rw e (ground (arith, e))

pub bump-tsec : (t : ℕ) (ok : Bool) (b : Bucket) → (bump t ok b).tsec ≡ some t
unfolding bump is_of
bump-tsec t ok b = elim (Option-cases b.tsec) [
  | inl e ↦ rw e (ground (arith, e))
  | inr (q, e) ↦ rw e (ground (arith, e))
]

pub replicate-shares :
    (n : ℕ) (kind : Bool) (size t : ℕ) → shares kind size t (replicate n empty_bucket) ≡ 0
replicate-shares zero kind size t = refl
replicate-shares (suc n) kind size t = omega (arith, replicate-shares n kind size t)
