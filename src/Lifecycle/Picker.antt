-- ===== src/Lifecycle/Picker.antt =====
-- internal/lifecycle/picker.go: which subscription a transition is attempted on. The maps are
-- association lists by subscription id, the seeded *rand.Rand is a state `S` with the draw `intn`,
-- and the mutexes, which make each method one step, are left out.
use Prim.Native.String.{compare}
use Prim.Native.Nat.{Ordering}
use aforo_nextgen_loadgen.Base.{
  ℕ, suc, Bool, true, false, not, ◌&&◌, String, Option, none, some, List, [], ◌∷◌, ◌++◌, map,
  length, get_elem?, keep, find, put, remove, is_key, if◌then◌else◌,
}
use aforo_nextgen_loadgen.Lifecycle.State.{SubscriptionState, other}
use aforo_nextgen_loadgen.Lifecycle.StateMachine.{TransitionKind, is_terminal, can_fire_from}
pub mod Eligible
pub mod Start

pub record Subject : Type 0 where
  pub tenant_id : String
  pub archetype : String
  pub pricing_model : String
  pub billing_mode : String
  pub customer_id : String
  pub subscription_id : String
  pub sub_seed_key : String
  pub state : SubscriptionState
  pub offering_ids : List String
  pub current_offer : String

pub record Picker (S : Type 0) : Type 0 where
  pub subjects : List Subject
  pub rng : S
  pub live_states : List (String × SubscriptionState)
  pub suspended : List (String × Bool)

-- The parts of seed.Manifest that the picker reads.
pub record ManifestSubscription : Type 0 where
  pub subscription_id : String
  pub seed_key : String
  pub status : SubscriptionState

pub record ManifestCustomer : Type 0 where
  pub customer_id : String
  pub subscriptions : List ManifestSubscription

pub record ManifestTenant : Type 0 where
  pub tenant_id : String
  pub archetype : String
  pub pricing_model : String
  pub billing_mode : String
  pub offerings : List String
  pub customers : List ManifestCustomer

-- The ids that are not empty.
unfoldable pub offering_ids : ManifestTenant → List String
offering_ids t = keep (λ o. not (is_key o "")) t.offerings

unfoldable pub subscription_subjects :
    ManifestTenant → ManifestCustomer → List ManifestSubscription → List Subject
unfolding offering_ids
subscription_subjects t c [] = []
subscription_subjects t c (s ∷ rest) =
    let later = subscription_subjects t c rest in
    if is_terminal s.status then later else subject ∷ later
  where
    subject : Subject
    subject = record {
      tenant_id = t.tenant_id;
      archetype = t.archetype;
      pricing_model = t.pricing_model;
      billing_mode = t.billing_mode;
      customer_id = c.customer_id;
      subscription_id = s.subscription_id;
      sub_seed_key = s.seed_key;
      state = s.status;
      offering_ids = offering_ids t;
      current_offer = "";
    }

unfoldable pub customer_subjects : ManifestTenant → List ManifestCustomer → List Subject
unfolding subscription_subjects
customer_subjects t [] = []
customer_subjects t (c ∷ rest) =
    subscription_subjects t c c.subscriptions ++ customer_subjects t rest

unfoldable pub tenant_subjects : List ManifestTenant → List Subject
unfolding customer_subjects
tenant_subjects [] = []
tenant_subjects (t ∷ rest) = customer_subjects t t.customers ++ tenant_subjects rest

-- The order of two texts in Go, by bytes.
abbrev text_less : String → String → Bool
text_less a b = elim (compare a b) [ Ordering.lt ↦ true | _ ↦ false ]

unfoldable pub subject_less : Subject → Subject → Bool
subject_less a b =
    if not (is_key a.tenant_id b.tenant_id)
    then text_less a.tenant_id b.tenant_id
    else text_less a.subscription_id b.subscription_id

-- Later subjects overwrite earlier ones of the same id.
unfoldable pub initial_states :
    List Subject → List (String × SubscriptionState) → List (String × SubscriptionState)
initial_states [] live = live
initial_states (s ∷ rest) live = initial_states rest (put s.subscription_id s.state live)

-- `sort` is sort.Slice.
unfoldable pub new_picker :
    {S : Type 0}
    → ((Subject → Subject → Bool) → List Subject → List Subject)
    → List ManifestTenant
    → S
    → Picker S
unfolding tenant_subjects initial_states subject_less
new_picker sort tenants seed =
    let subjects = sort subject_less (tenant_subjects tenants) in
    record {
      subjects = subjects;
      rng = seed;
      live_states = initial_states subjects [];
      suspended = [];
    }

unfoldable pub migrate_targets : Subject → List String
migrate_targets s = keep (λ o. not (is_key o s.current_offer)) s.offering_ids

module _ {S : Type 0} where
  -- A read of a missing key gives the zero value: "" and false.
  unfoldable pub live_state : Picker S → String → SubscriptionState
  live_state p id = elim (find id p.live_states) [ none ↦ other "" | some s ↦ s ]

  unfoldable pub is_suspended : Picker S → String → Bool
  is_suspended p id = elim (find id p.suspended) [ none ↦ false | some b ↦ b ]

  unfoldable pub set_live_state : Picker S → String → SubscriptionState → Picker S
  set_live_state p id s = record p { live_states = put id s p.live_states }

  unfoldable pub mark_suspended : Picker S → String → Picker S
  mark_suspended p id = record p { suspended = put id true p.suspended }

  unfoldable pub mark_live : Picker S → String → Picker S
  mark_live p id = record p { suspended = remove id p.suspended }

  unfoldable pub count_eligible : Picker S → TransitionKind → List Subject → ℕ → ℕ
  count_eligible p kind [] count = count
  count_eligible p kind (s ∷ rest) count = count_eligible p kind rest (
      if is_suspended p s.subscription_id
      then count
      else if can_fire_from kind (live_state p s.subscription_id)
      then suc count
      else count)

  unfoldable pub eligible_count : Picker S → TransitionKind → ℕ
  unfolding count_eligible
  eligible_count p kind = count_eligible p kind p.subjects 0

  unfoldable pub candidates : Picker S → TransitionKind → List Subject → List Subject
  candidates p kind [] = []
  candidates p kind (s ∷ rest) =
      let later = candidates p kind rest in
      if is_suspended p s.subscription_id
      then later
      else if can_fire_from kind (live_state p s.subscription_id)
      then record s { state = live_state p s.subscription_id } ∷ later
      else later

-- `intn rng n` is rng.Intn(n): the draw, and the generator after it.
module _ {S : Type 0} (intn : S → ℕ → ℕ × S) where
  -- An index that is out of range panics, which is `none` here.
  unfoldable pub draw {ℓ} : {A : Type ℓ} → Picker S → List A → Option A × Picker S
  draw p [] = (none, p)
  draw p (x ∷ xs) =
      let (i, rng) = intn p.rng (length (x ∷ xs)) in (get_elem? (x ∷ xs) i, record p { rng = rng })

  unfoldable pub pick_for : Picker S → TransitionKind → Option Subject × Picker S
  unfolding candidates draw
  pick_for p kind = draw p (candidates p kind p.subjects)

  -- `none` is the empty string: a tenant with no other offering.
  unfoldable pub pick_migrate_target : Picker S → Subject → Option String × Picker S
  unfolding migrate_targets draw
  pick_migrate_target p s = draw p (migrate_targets s)
