-- ===== src/Examples/Coord.antt =====
-- Three tenants and a rate of seven for three workers, and two workers that are polled.
use aforo_nextgen_loadgen.Base.{
  ℕ, ◌/◌, ◌%◌, is_key, ◌≤◌, ◌<◌, ◌≡◌, refl, false, Option, none, some, String, List, [], ◌∷◌, All,
  arith, length, ◌==◌, if◌then◌else◌,
}
use aforo_nextgen_loadgen.Coord.Partition.{
  chunks, partition_tenants, chunk_at, count, partition_tenants-count,
}
use aforo_nextgen_loadgen.Coord.SplitTps.{split_tps, sum, IsFair, sum-split_tps}
use aforo_nextgen_loadgen.Coord.Poll.{WorkerState}

-- A hash that tells one tenant from the others.
abbrev code : String → ℕ
code id = if is_key id "acme" then 7 else 3

abbrev kept : List String → List String
kept xs = xs

abbrev names : List String
names = "acme" ∷ "globex" ∷ "initech" ∷ []

partition_tenants-count_example :
    (cs : List (List String)) × (partition_tenants code kept names 3 ≡ chunks cs)
    × (length cs ≡ 3)
    × ((x : String) (i : ℕ)
        → count x (chunk_at cs i) ≡ (if i == code x % 3 then count x names else 0))
partition_tenants-count_example =
    partition_tenants-count code kept names 3 (λ xs y. refl) (omega arith) (omega arith)
      (omega arith)

seven_in_three : split_tps 7 3 ≡ 3 ∷ 2 ∷ 2 ∷ []
unfolding split_tps
seven_in_three = refl

sum-split_tps_example :
    (length (split_tps 7 3) ≡ 3)
    × All (IsFair (7 / 3)) (split_tps 7 3)
    × (3 ≤ 7 → sum (split_tps 7 3) ≡ 7)
    × (7 < 3 → sum (split_tps 7 3) ≡ 3)
sum-split_tps_example = sum-split_tps 7 3 (omega arith) (omega arith)

abbrev lost : WorkerState
lost = record { addr = "w1"; last_heartbeat = some 1000; state = "running"; dropout_logged = false }

abbrev finished : WorkerState
finished = record {
  addr = "w2";
  last_heartbeat = some 2000;
  state = "done";
  dropout_logged = false;
}

abbrev two_rounds : List (ℕ × (String → Option String))
two_rounds = (3000, λ addr. some "running") ∷ (4000, λ addr. none) ∷ []
