-- ===== src/Driver/Window.antt =====
-- The ring of one-second buckets that the circuit breaker and the backpressure controller count
-- outcomes in: counterBucket, touchBucket and tally of internal/driver/circuit_breaker.go and
-- backpressure.go. A time is the nanoseconds since 1970, and a duration is nanoseconds.
use aforo_nextgen_loadgen.Base.{
  ℕ, zero, suc, ◌+◌, ◌-◌, ◌/◌, ◌%◌, Bool, true, false, ◌&&◌, Option, none, some, List, [], ◌∷◌,
  length, get_elem?, set, replicate, ◌==◌, leb, if◌then◌else◌,
}
pub mod Shares
pub mod Recent

abbrev pub second : ℕ
second = 1000000000

-- `none` is the mark -1 of an empty bucket.
pub record Bucket : Type 0 where
  pub tsec : Option ℕ
  pub succ : ℕ
  pub fail : ℕ

abbrev pub empty_bucket : Bucket
empty_bucket = record { tsec = none; succ = 0; fail = 0 }

-- int(window / time.Second), and at least one.
unfoldable pub bucket_count : ℕ → ℕ
bucket_count window = if leb 1 (window / second) then window / second else 1

unfoldable pub new_buckets : ℕ → List Bucket
unfolding bucket_count
new_buckets window = replicate (bucket_count window) empty_bucket

unfoldable pub is_of : ℕ → Bucket → Bool
is_of t b = elim b.tsec [ none ↦ false | some q ↦ q == t ]

-- The bucket for a second, which starts again where it holds an older one.
unfoldable pub bump : ℕ → Bool → Bucket → Bucket
unfolding is_of
bump t ok b =
    let c : Bucket = if is_of t b then b else record { tsec = some t; succ = 0; fail = 0 } in
    if ok then record c { succ = suc c.succ } else record c { fail = suc c.fail }

unfoldable pub touch_bucket : List Bucket → ℕ → Bool → List Bucket
unfolding bump
touch_bucket buckets now success =
    let t = now / second in
    let i = t % length buckets in
    elim (get_elem? buckets i) [ none ↦ buckets | some b ↦ set buckets i (bump t success b) ]

-- Whether tally counts a bucket. Where now.Add(-window) is before 1970, no second is at or before it.
unfoldable pub is_live : ℕ → ℕ → Bucket → Bool
is_live window now b = elim b.tsec [
  | none ↦ false
  | some q ↦ if leb window now && leb q ((now - window) / second) then false else true
]

-- The successes and the failures.
unfoldable pub tally : ℕ → ℕ → List Bucket → ℕ × ℕ
unfolding is_live
tally window now [] = (0, 0)
tally window now (b ∷ rest) =
    let (succ, fail) = tally window now rest in
    if is_live window now b then (succ + b.succ, fail + b.fail) else (succ, fail)
