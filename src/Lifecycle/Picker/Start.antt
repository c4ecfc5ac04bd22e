-- ===== src/Lifecycle/Picker/Start.antt =====
-- The pool that NewPicker builds from the manifest (internal/lifecycle/picker.go).
use mathlib.Core.List.{Mem, Memᴰ, Perm, mem-cons_self, mem-cons_of_mem}
use mathlib.Core.List.Perm
use mathlib.Core.Logic.{∥∥₁_elim}
use aforo_nextgen_loadgen.Base.{
  Bool, false, ◌≡◌, inl, inr, sym, subst, String, some, List, [], ◌∷◌, All, All-append, arith,
  Bool-cases, find, put, find-put, is_key,
}
use aforo_nextgen_loadgen.Lifecycle.State.{SubscriptionState}
use aforo_nextgen_loadgen.Lifecycle.StateMachine.{is_terminal}
use aforo_nextgen_loadgen.Lifecycle.Picker.{
  Subject, ManifestTenant, ManifestCustomer, ManifestSubscription, subscription_subjects,
  customer_subjects, tenant_subjects, initial_states, new_picker, subject_less,
}

abbrev pub IsOpen : Subject → Type 0
IsOpen s = is_terminal s.state ≡ false

subscription_subjects-IsOpen :
    (t : ManifestTenant) (c : ManifestCustomer) (xs : List ManifestSubscription)
    → All IsOpen (subscription_subjects t c xs)
unfolding subscription_subjects
subscription_subjects-IsOpen t c [] = tt
subscription_subjects-IsOpen t c (s ∷ rest) = elim (Bool-cases (is_terminal s.status)) [
  | inl closed ↦ rw closed (subscription_subjects-IsOpen t c rest)
  | inr live ↦ rw live (live, subscription_subjects-IsOpen t c rest)
]

customer_subjects-IsOpen :
    (t : ManifestTenant) (cs : List ManifestCustomer) → All IsOpen (customer_subjects t cs)
unfolding customer_subjects
customer_subjects-IsOpen t [] = tt
customer_subjects-IsOpen t (c ∷ rest) =
    All-append IsOpen _ _ (subscription_subjects-IsOpen t c c.subscriptions)
      (customer_subjects-IsOpen t rest)

tenant_subjects-IsOpen : (ts : List ManifestTenant) → All IsOpen (tenant_subjects ts)
unfolding tenant_subjects
tenant_subjects-IsOpen [] = tt
tenant_subjects-IsOpen (t ∷ rest) =
    All-append IsOpen _ _ (customer_subjects-IsOpen t t.customers) (tenant_subjects-IsOpen rest)

IsOpen-prop : (s : Subject) → IsProp (IsOpen s)
IsOpen-prop s = hlevel

All-Memᴰ : (xs : List Subject) {s : Subject} → All IsOpen xs → Memᴰ s xs → IsOpen s
All-Memᴰ [] h m = elim m [ ]
All-Memᴰ (x ∷ xs) h (Memᴰ.head e) = subst IsOpen (sym e) h.0
All-Memᴰ (x ∷ xs) h (Memᴰ.tail m) = All-Memᴰ xs h.1 m

All-of_Mem : (xs : List Subject) → ((s : Subject) → Mem s xs → IsOpen s) → All IsOpen xs
All-of_Mem [] h = tt
All-of_Mem (x ∷ xs) h = (h x mem-cons_self, All-of_Mem xs (λ s m. h s (mem-cons_of_mem x m)))

All-perm : (xs ys : List Subject) → Perm xs ys → All IsOpen ys → All IsOpen xs
All-perm xs ys p h =
    All-of_Mem xs (λ s m. ∥∥₁_elim ((Perm.mem_iff p).0 m) (IsOpen-prop s) (All-Memᴰ ys h))

-- No entry of the map is a terminal state.
abbrev pub NoTerminal : List (String × SubscriptionState) → Type 0
NoTerminal live =
    (id : String) (st : SubscriptionState) → find id live ≡ some st → is_terminal st ≡ false

put-NoTerminal :
    (k : String) (st : SubscriptionState) (live : List (String × SubscriptionState))
    → is_terminal st ≡ false
    → NoTerminal live
    → NoTerminal (put k st live)
put-NoTerminal k st live open' h id found e = elim (Bool-cases (is_key k id)) [
  | inl here ↦
      let same : some st ≡ some found = rw (find-put k id st live, here) at e in
      ground (arith, same)
  | inr there ↦
      let old : find id live ≡ some found = rw (find-put k id st live, there) at e in h id found old
]

initial_states-NoTerminal :
    (xs : List Subject) (live : List (String × SubscriptionState))
    → All IsOpen xs
    → NoTerminal live
    → NoTerminal (initial_states xs live)
unfolding initial_states
initial_states-NoTerminal [] live h k = k
initial_states-NoTerminal (x ∷ xs) live h k =
    initial_states-NoTerminal xs (put x.subscription_id x.state live) h.1
      (put-NoTerminal x.subscription_id x.state live h.0 k)

-- The pool of a new picker holds no subscription that is CANCELLED or EXPIRED, and neither does its
-- view of the states, whatever the manifest says; sort.Slice is taken to permute its slice.
pub new_picker-IsOpen :
    {S : Type 0} (sort : (Subject → Subject → Bool) → List Subject → List Subject)
    (tenants : List ManifestTenant) (seed : S)
    → ((less : Subject → Subject → Bool) (xs : List Subject) → Perm (sort less xs) xs)
    → All IsOpen (new_picker sort tenants seed).subjects
      × NoTerminal (new_picker sort tenants seed).live_states
unfolding new_picker
new_picker-IsOpen sort tenants seed sorts = (
  pool,
  initial_states-NoTerminal (sort subject_less (tenant_subjects tenants)) [] pool
      (unfold find in λ id st e. cc),
)
  where
    pool : All IsOpen (sort subject_less (tenant_subjects tenants))
    pool =
        All-perm (sort subject_less (tenant_subjects tenants)) (tenant_subjects tenants)
          (sorts subject_less (tenant_subjects tenants)) (tenant_subjects-IsOpen tenants)
