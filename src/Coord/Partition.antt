-- ===== src/Coord/Partition.antt =====
-- Which worker gets which tenant: partitionTenants of internal/coord/coordinator.go. `hash` is
-- stableHash, the 32-bit FNV-1a of the standard library, and `sort` is sort.Strings.
use native.Mathlib.Nat.{mod-lt, mod-eq_of_lt}
use aforo_nextgen_loadgen.Base.{
  ==_iff, ℕ, zero, suc, ◌+◌, ◌%◌, ◌^◌, ◌<◌, ◌≡◌, refl, Bool, true, false, String, none, some, List,
  [], ◌∷◌, ◌++◌, map, ap, sym, ◌∙◌, inl, inr, arith, length, get_elem?, set, replicate, is_key,
  is_key_eq, ◌==◌, if◌then◌else◌, Bool-cases, length-set, length-replicate,
}

-- The two errors of partitionTenants.
pub data PartitionError : Type 0 where
  no_workers no_tenants : PartitionError

pub data Partitioned : Type 0 where
  chunks : List (List String) → Partitioned
  error : PartitionError → Partitioned

abbrev pub chunk_at : List (List String) → ℕ → List String
chunk_at cs i = elim (get_elem? cs i) [ none ↦ [] | some c ↦ c ]

module _ (hash : String → ℕ) where
  -- chunks[stableHash(id)%uint32(n)] = append(..., id), for each id in turn.
  unfoldable pub place : ℕ → List (List String) → List String → List (List String)
  place n cs [] = cs
  place n cs (id ∷ rest) =
      let i = hash id % (n % 2 ^ 32) in place n (set cs i (chunk_at cs i ++ id ∷ [])) rest

  unfoldable pub partition_tenants : (List String → List String) → List String → ℕ → Partitioned
  unfolding place
  partition_tenants sort ids zero = error no_workers
  partition_tenants sort [] (suc n) = error no_tenants
  partition_tenants sort (id ∷ ids) (suc n) =
      chunks (map sort (place (suc n) (replicate (suc n) []) (id ∷ ids)))

-- How often a tenant stands in a list.
abbrev pub count : String → List String → ℕ
count x [] = 0
count x (y ∷ ys) = (if is_key y x then 1 else 0) + count x ys

count-append : (x : String) (xs ys : List String) → count x (xs ++ ys) ≡ count x xs + count x ys
count-append x [] ys = omega arith
count-append x (y ∷ xs) ys = omega (arith, count-append x xs ys)

chunk_at-set :
    (cs : List (List String)) (i j : ℕ) (c : List String)
    → j < length cs
    → chunk_at (set cs j c) i ≡ (if i == j then c else chunk_at cs i)
chunk_at-set [] i j c h = absurd (omega arith)
chunk_at-set (d ∷ cs) zero zero c h = refl
chunk_at-set (d ∷ cs) zero (suc j) c h = ground arith
chunk_at-set (d ∷ cs) (suc i) zero c h = ground arith
chunk_at-set (d ∷ cs) (suc i) (suc j) c h = ground (arith, chunk_at-set cs i j c (omega arith))

-- A tenant is added to the count of its own chunk, and to no other.
count-set :
    (cs : List (List String)) (id x : String) (i j : ℕ)
    → j < length cs
    → count x (chunk_at (set cs j (chunk_at cs j ++ id ∷ [])) i)
      ≡ count x (chunk_at cs i) + (if i == j then (if is_key id x then 1 else 0) else 0)
count-set cs id x i j h =
    let added = count-append x (chunk_at cs j) (id ∷ []) in
    elim (Bool-cases (i == j)) [
      | inl here ↦
          let at : i ≡ j = (==_iff i j).0 here in
          rw (chunk_at-set cs i j (chunk_at cs j ++ id ∷ []) h, here) (rw at (omega (arith, added)))
      | inr there ↦ rw (chunk_at-set cs i j (chunk_at cs j ++ id ∷ []) h, there) (omega arith)
    ]

chunk_at-map :
    (sort : List String → List String) (cs : List (List String)) (x : String) (i : ℕ)
    → ((xs : List String) (y : String) → count y (sort xs) ≡ count y xs)
    → count x (chunk_at (map sort cs) i) ≡ count x (chunk_at cs i)
chunk_at-map sort [] x i sorts = refl
chunk_at-map sort (c ∷ cs) x zero sorts = sorts c x
chunk_at-map sort (c ∷ cs) x (suc i) sorts = chunk_at-map sort cs x i sorts

chunk_at-replicate : (n i : ℕ) → chunk_at (replicate n []) i ≡ []
chunk_at-replicate zero i = refl
chunk_at-replicate (suc n) zero = refl
chunk_at-replicate (suc n) (suc i) = chunk_at-replicate n i

length-map_list :
    (sort : List String → List String) (cs : List (List String)) → length (map sort cs) ≡ length cs
length-map_list sort [] = refl
length-map_list sort (c ∷ cs) = ap suc (length-map_list sort cs)

add_cond :
    (a b c : ℕ) (t : Bool)
    → a + (if t then b else 0) + (if t then c else 0) ≡ a + (if t then b + c else 0)
add_cond a b c true = omega arith
add_cond a b c false = omega arith

add_none :
    (a c : ℕ) (t u : Bool)
    → a + (if t then 0 else 0) + (if u then c else 0) ≡ a + (if u then 0 + c else 0)
add_none a c true u = ground arith
add_none a c false u = ground arith

module _ (hash : String → ℕ) where
  length-place :
      (n : ℕ) (cs : List (List String)) (ids : List String)
      → length (place hash n cs ids) ≡ length cs
  unfolding place
  length-place n cs [] = refl
  length-place n cs (id ∷ rest) =
      let j = hash id % (n % 2 ^ 32) in
      length-place n (set cs j (chunk_at cs j ++ id ∷ [])) rest
      ∙ length-set cs j (chunk_at cs j ++ id ∷ [])

  count-place :
      (n : ℕ) (cs : List (List String)) (ids : List String) (x : String) (i : ℕ)
      → 0 < n % 2 ^ 32
      → length cs ≡ n % 2 ^ 32
      → count x (chunk_at (place hash n cs ids) i)
        ≡ count x (chunk_at cs i) + (if i == hash x % (n % 2 ^ 32) then count x ids else 0)
  unfolding place
  count-place n cs [] x i h full = ground arith
  count-place n cs (id ∷ rest) x i h full =
      let j = hash id % (n % 2 ^ 32) in
      let cs' = set cs j (chunk_at cs j ++ id ∷ []) in
      let later =
        count-place n cs' rest x i h (length-set cs j (chunk_at cs j ++ id ∷ []) ∙ full) in
      let in_range : j < n % 2 ^ 32 = mod-lt (hash id) h in
      let now = count-set cs id x i j (omega (arith, full)) in
      elim (Bool-cases (is_key id x)) [
        | inl same ↦
            let slot : j ≡ hash x % (n % 2 ^ 32) =
              ap (λ y. hash y % (n % 2 ^ 32)) (is_key_eq id x same) in
            later
            ∙ rw now (
                rw same (
                  rw slot (
                    add_cond (count x (chunk_at cs i)) 1 (count x rest)
                      (i == hash x % (n % 2 ^ 32)))))
        | inr other ↦
            later
            ∙ rw now (
                rw other (
                  add_none (count x (chunk_at cs i)) (count x rest) (i == j)
                    (i == hash x % (n % 2 ^ 32))))
      ]

  -- Where there are workers and tenants, and the workers fit 32 bits: there is a chunk for each
  -- worker, and each tenant stands in the one of its hash, as often as it was given, and in no other.
  pub partition_tenants-count :
      (sort : List String → List String) (ids : List String) (n : ℕ)
      → ((xs : List String) (y : String) → count y (sort xs) ≡ count y xs)
      → 0 < n
      → n < 2 ^ 32
      → 0 < length ids
      → (cs : List (List String)) × (partition_tenants hash sort ids n ≡ chunks cs)
        × (length cs ≡ n)
        × ((x : String) (i : ℕ)
            → count x (chunk_at cs i) ≡ (if i == hash x % n then count x ids else 0))
  unfolding partition_tenants
  partition_tenants-count sort ids zero sorts h fits given = absurd (omega arith)
  partition_tenants-count sort [] (suc n) sorts h fits given = absurd (omega arith)
  partition_tenants-count sort (id ∷ ids) (suc n) sorts h fits given =
      let all = id ∷ ids in
      let start = replicate (suc n) [] in
      let placed = place hash (suc n) start all in
      let whole : suc n % 2 ^ 32 ≡ suc n = mod-eq_of_lt fits in
      let sizes : length start ≡ suc n % 2 ^ 32 = length-replicate (suc n) [] ∙ sym whole in
      (
        map sort placed,
        refl,
        length-map_list sort placed ∙ length-place (suc n) start all ∙ length-replicate (suc n) [],
        λ x i.
            chunk_at-map sort placed x i sorts
            ∙ (count-place (suc n) start all x i (omega (arith, whole)) sizes
                ∙ rw (chunk_at-replicate (suc n) i, whole) (omega arith)),
      )
