-- ===== src/Base/Integers.antt =====
-- Go's int and int64 where they may be negative, over the native numbers.
use Prim.Native.Nat.{ℕ, zero, suc}
use mathlib.Core.Bool.{Bool, true, false, not}
use Prim.Native.Nat.{◌<◌}
use mathlib.Core.Path.{◌≡◌, refl, subst}
use mathlib.Core.Logic.{inl, inr}
use native.Mathlib.Omega.{arith}
use aforo_nextgen_loadgen.Base.Tests.{leb, ◌==◌, if◌then◌else◌, Bool-cases}

-- `negsuc n` is -(n + 1).
pub data ℤ : Type 0 where
  pos negsuc : ℕ → ℤ

-- a <= b
abbrev pub lez : ℤ → ℤ → Bool
lez (pos a) (pos b) = leb a b
lez (pos a) (negsuc b) = false
lez (negsuc a) (pos b) = true
lez (negsuc a) (negsuc b) = leb b a

-- a < b
abbrev pub ltz : ℤ → ℤ → Bool
ltz a b = not (lez b a)

-- a == b
abbrev pub eqz : ℤ → ℤ → Bool
eqz (pos a) (pos b) = a == b
eqz (pos a) (negsuc b) = false
eqz (negsuc a) (pos b) = false
eqz (negsuc a) (negsuc b) = a == b

-- math.MaxInt64
abbrev pub max_int64 : ℕ
max_int64 = 9223372036854775807

-- a + 1 on int64, which wraps to the least integer.
unfoldable pub sucz : ℤ → ℤ
sucz (pos a) = if a == max_int64 then negsuc max_int64 else pos (suc a)
sucz (negsuc zero) = pos 0
sucz (negsuc (suc a)) = negsuc a

pub sucz_below : (a : ℕ) → a < max_int64 → sucz (pos a) ≡ pos (suc a)
unfolding sucz
sucz_below a small = let other : (a == max_int64) ≡ false = ground (arith, small) in rw other refl

pub eqz-sucz : (a b : ℕ) → eqz (pos a) (sucz (pos b)) ≡ true → a ≡ suc b
unfolding sucz
eqz-sucz a b e = elim (Bool-cases (b == max_int64)) [
  | inl top ↦ let apart : eqz (pos a) (sucz (pos b)) ≡ false = rw (top, sucz) refl in absurd cc
  | inr other ↦
      let next : sucz (pos b) ≡ pos (suc b) = rw (other, sucz) refl in
      let same : (a == suc b) ≡ true = subst (λ x. eqz (pos a) x ≡ true) next e in
      ground (arith, same)
]

-- -n
abbrev pub neg : ℕ → ℤ
neg zero = pos 0
neg (suc n) = negsuc n
