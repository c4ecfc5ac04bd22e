-- ===== src/Driver/Window/Recent.antt =====
-- The ring of buckets against the list of all outcomes (internal/driver/circuit_breaker.go).
use native.Mathlib.Nat.{mod-lt}
use aforo_nextgen_loadgen.Base.{
  ◌∙◌, ==_iff, ◌==◌, get_elem?_total, get_elem?-set_cases, length-set, length-replicate, sym, ℕ,
  zero, suc, ◌+◌, ◌*◌, ◌/◌, ◌%◌, ◌≤◌, ◌<◌, ◌≡◌, refl, ap, Bool, true, false, none, some, List, [],
  ◌∷◌, inl, inr, ◌⊎◌, arith, length, get_elem?, set, replicate, Bool-cases, Option-cases,
}
use aforo_nextgen_loadgen.Driver.Window.{
  new_buckets, bucket_count, Bucket, second, empty_bucket, bump, touch_bucket, tally,
}
use aforo_nextgen_loadgen.Driver.Window.Shares.{
  Event, recent, shares, tally-shares, shares-set, slot_apart, share-bump, bump-tsec,
  replicate-shares,
}

-- Every bucket holds a second of its slot that is not after `t`.
abbrev IsSlotted : ℕ → ℕ → ℕ → Bucket → Type 0
IsSlotted size t i b = (q : ℕ) → b.tsec ≡ some q → (q ≤ t) × (q % size ≡ i)

-- The ring after the outcomes of a list, of which none is later than the second `last`: it has one
-- bucket for each second of the window, and every later tally counts as the list does.
pub record IsRing (size last : ℕ) (events : List Event) (bs : List Bucket) : Type 0 where
  pub full : length bs ≡ size
  pub slotted : (i : ℕ) (b : Bucket) → get_elem? bs i ≡ some b → IsSlotted size last i b
  pub counts : (kind : Bool) (t : ℕ) → last ≤ t → shares kind size t bs ≡ recent kind size t events

-- What a slot holds when its second comes: nothing, that second, or one that is out of the window.
slot_holds :
    (size last t : ℕ) (b : Bucket)
    → 0 < size
    → last ≤ t
    → IsSlotted size last (t % size) b
    → (b.tsec ≡ none) ⊎ ((q : ℕ) × (b.tsec ≡ some q) × ((q ≡ t) ⊎ (q < t) × (q + size ≤ t)))
slot_holds size last t b h before slotted = elim (Option-cases b.tsec) [
  | inl e ↦ inl e
  | inr (q, e) ↦ elim (Bool-cases (q == t)) [
    | inl same ↦ inr (q, e, inl ((==_iff q t).0 same))
    | inr other ↦
        let lt : q < t = ground (arith, (slotted q e).0, other) in
        inr (q, e, inr (lt, slot_apart size q t h lt (slotted q e).1))
  ]
]

set-IsRing :
    (size last now : ℕ) (ok : Bool) (events : List Event) (bs : List Bucket) (b : Bucket)
    → 0 < size
    → last ≤ now / second
    → get_elem? bs (now / second % size) ≡ some b
    → IsRing size last events bs
    → IsRing size
        (now / second)
        (record { at = now; ok = ok } ∷ events)
        (set bs (now / second % size) (bump (now / second) ok b))
set-IsRing size last now ok events bs b h before found ring =
    let t = now / second in
    let i = t % size in
    let new = bump t ok b in
    let holds = slot_holds size last t b h before (ring.slotted i b found) in
    record {
      full = length-set bs i new ∙ ring.full;
      slotted = λ j c e. elim (get_elem?-set_cases bs i j new e) [
        | inl (at, same) ↦ λ q held.
            let stamp : new.tsec ≡ some t = bump-tsec t ok b in
            let now_is : q ≡ t = cc in (omega (arith, now_is), ap (λ x. x % size) now_is ∙ sym at)
        | inr kept ↦ λ q held.
            (omega (arith, (ring.slotted j c kept q held).0), (ring.slotted j c kept q held).1)
      ];
      counts = λ kind later after. omega (
        arith,
        shares-set kind size later bs i new found,
        share-bump kind ok size now later b events after holds,
        ring.counts kind later (omega arith),
      );
    }

pub touch-IsRing :
    (size last now : ℕ) (ok : Bool) (events : List Event) (bs : List Bucket)
    → 0 < size
    → last ≤ now / second
    → IsRing size last events bs
    → IsRing size (now / second) (record { at = now; ok = ok } ∷ events) (touch_bucket bs now ok)
unfolding touch_bucket
touch-IsRing size last now ok events bs h before ring =
    let t = now / second in
    let in_range : t % size < size = mod-lt t h in
    let (b, found) = get_elem?_total bs (t % size) (omega (arith, ring.full)) in
    rw (ring.full, touch_bucket)
      (rw found (rw ring.full (set-IsRing size last now ok events bs b h before found ring)))

replicate_empty :
    (n i : ℕ) {b : Bucket} → get_elem? (replicate n empty_bucket) i ≡ some b → b.tsec ≡ none
replicate_empty zero i e = cc
replicate_empty (suc n) zero {b} e =
    let same : empty_bucket ≡ b = cc in ap (λ (c : Bucket). c.tsec) (sym same)
replicate_empty (suc n) (suc i) e = replicate_empty n i e

-- A ring of empty buckets counts nothing.
pub replicate-IsRing : (size last : ℕ) → IsRing size last [] (replicate size empty_bucket)
unfolding recent
replicate-IsRing size last = record {
  full = length-replicate size empty_bucket;
  slotted = λ i b e q held. let free : b.tsec ≡ none = replicate_empty size i e in absurd cc;
  counts = λ kind t after. replicate-shares size kind size t;
}

pub new_buckets-IsRing :
    (size last : ℕ) → 0 < size → IsRing size last [] (new_buckets (size * second))
unfolding new_buckets bucket_count
new_buckets-IsRing size last h =
    let n : bucket_count (size * second) ≡ size = ground arith in
    rw (n, new_buckets) (replicate-IsRing size last)

-- The ring after the outcomes of a list, which has the latest first.
abbrev pub touch_all : List Bucket → List Event → List Bucket
touch_all bs [] = bs
touch_all bs (e ∷ rest) = touch_bucket (touch_all bs rest) e.at e.ok

-- The clock does not go back, and stands at `now`.
abbrev pub IsInOrder : ℕ → List Event → Type 0
IsInOrder now [] = Unit
IsInOrder now (e ∷ rest) = (e.at ≤ now) × IsInOrder e.at rest

-- A ring may be read at a later time.
pub later-IsRing :
    (size last later : ℕ) (events : List Event) (bs : List Bucket)
    → last ≤ later
    → IsRing size last events bs
    → IsRing size later events bs
later-IsRing size last later events bs after ring = record {
  full = ring.full;
  slotted =
      λ i b e q held. (omega (arith, (ring.slotted i b e q held).0), (ring.slotted i b e q held).1);
  counts = λ kind t h. ring.counts kind t (omega arith);
}

touch_all-IsRing :
    (size now : ℕ) (events : List Event)
    → 0 < size
    → IsInOrder now events
    → IsRing size (now / second) events (touch_all (new_buckets (size * second)) events)
touch_all-IsRing size now [] h order = new_buckets-IsRing size (now / second) h
touch_all-IsRing size now (e ∷ rest) h order =
    let bs = touch_all (new_buckets (size * second)) rest in
    later-IsRing size (e.at / second) (now / second) (e ∷ rest) (touch_bucket bs e.at e.ok)
      (omega (arith, order.0))
      (touch-IsRing size (e.at / second) e.at e.ok rest bs h (omega arith)
        (touch_all-IsRing size e.at rest h order.1))

-- A tally reads from a ring what the list of its outcomes holds.
pub IsRing-tally :
    (size last now : ℕ) (events : List Event) (bs : List Bucket)
    → last ≤ now / second
    → IsRing size last events bs
    → tally (size * second) now bs
      ≡ (recent true size (now / second) events, recent false size (now / second) events)
IsRing-tally size last now events bs after ring =
    rw
      (
        tally-shares size now bs,
        ring.counts true (now / second) after,
        ring.counts false (now / second) after,
      )
      refl

-- The ring of a window of whole seconds forgets nothing that counts: after any outcomes, at times
-- that do not go back, tally gives the successes and the failures of the last `size` seconds.
pub tally-recent :
    (size now : ℕ) (events : List Event)
    → 0 < size
    → IsInOrder now events
    → tally (size * second) now (touch_all (new_buckets (size * second)) events)
      ≡ (recent true size (now / second) events, recent false size (now / second) events)
tally-recent size now events h order =
    IsRing-tally size (now / second) now events (touch_all (new_buckets (size * second)) events)
      (omega arith) (touch_all-IsRing size now events h order)
