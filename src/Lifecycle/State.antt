-- ===== src/Lifecycle/State.antt =====
-- The states of a subscription, internal/scenario/types.go. A Go value of this string type that is
-- none of the nine constants, the empty string among them, is `other`.
use aforo_nextgen_loadgen.Base.{Bool, true, false, String, ◌≡◌, refl, arith}
use text.Mathlib.Text.{◌==◌ as str_eq}
use text.Mathlib.TextEquality.{eq_iff}

pub data SubscriptionState : Type 0 where
  created trialing active past_due paused expiring_soon expired cancelled suspended :
      SubscriptionState
  other : String → SubscriptionState

-- `string(s)`
unfoldable pub wire : SubscriptionState → String
wire created = "CREATED"
wire trialing = "TRIALING"
wire active = "ACTIVE"
wire past_due = "PAST_DUE"
wire paused = "PAUSED"
wire expiring_soon = "EXPIRING_SOON"
wire expired = "EXPIRED"
wire cancelled = "CANCELLED"
wire suspended = "SUSPENDED"
wire (other s) = s

-- `a == b`, for values in which `other` holds none of the nine texts
unfoldable pub same : SubscriptionState → SubscriptionState → Bool
same created created = true
same trialing trialing = true
same active active = true
same past_due past_due = true
same paused paused = true
same expiring_soon expiring_soon = true
same expired expired = true
same cancelled cancelled = true
same suspended suspended = true
same (other s) (other t) = str_eq s t
same _ _ = false

pub same_eq : (a b : SubscriptionState) → same a b ≡ true → a ≡ b
unfolding same
same_eq (other s) (other t) h = ground (arith, eq_iff s t)
same_eq a b h = ground arith

pub same_refl : (a : SubscriptionState) → same a a ≡ true
unfolding same
same_refl (other s) = (eq_iff s s).1 refl
same_refl created = refl
same_refl _ = refl
