-- ===== src/Examples/Wallet.antt =====
-- Wallet audits (internal/wallet/balance_audit.go) in whole cents.
use Prim.Native.String.{◌++◌ as str_append}
use aforo_nextgen_loadgen.Base.{◌⊎◌, inl, inr, ℕ, ◌≡◌, refl, String, List, [], ◌∷◌, map, find, put}
use aforo_nextgen_loadgen.Lifecycle.Wire.{Strings}
use aforo_nextgen_loadgen.Wallet.Audit.{
  AuditRow, WireRow, Bucket, lines, hold_id, customer_key, load_audit, read_rows,
}
use aforo_nextgen_loadgen.Wallet.Audit.Holds.{created, distinct, hold_ids, read_rows-created}
use aforo_nextgen_loadgen.Examples.Fractions.{whole}

abbrev joined : Strings
joined = record {
  to_upper = λ s. s;
  trim_space = λ s. s;
  replace_newlines = λ s. s;
  byte_len = λ s. 0;
  byte_prefix = λ s n. s;
  join = λ s t. str_append s t;
}

abbrev show : ℕ → String
show n = "40"

abbrev hold : String → String → WireRow ℕ
hold customer state = record {
  kind = "hold_event";
  tenant_id = "t";
  customer_id = customer;
  wallet_id = "w";
  currency = "USD";
  balance_usd = 0;
  held_usd = 0;
  hold_usd = 40;
  phase = "";
  state = state;
  holds_active = 0;
}

abbrev snapshot : String → String → ℕ → ℕ → WireRow ℕ
snapshot customer phase balance held = record {
  kind = "snapshot";
  tenant_id = "t";
  customer_id = customer;
  wallet_id = "w";
  currency = "USD";
  balance_usd = balance;
  held_usd = held;
  hold_usd = 0;
  phase = phase;
  state = "";
  holds_active = 0;
}

-- Of the customer "a", one hold that is placed and then released; of "b", two holds of one amount.
abbrev rows : List (WireRow ℕ)
rows =
    snapshot "a" "pre" 100 0
    ∷ hold "a" "PENDING"
    ∷ hold "b" "PENDING"
    ∷ hold "b" "PENDING"
    ∷ hold "a" "RELEASED"
    ∷ snapshot "a" "post-expiry" 100 0
    ∷ []

-- The counts of holds created: two for the one hold of "a", and one for the two holds of "b".
counts : List (AuditRow ℕ) ⊎ String → List ℕ
counts (inl out) = map (λ (r : AuditRow ℕ). r.holds_created) out
counts (inr e) = []

two_for_one : counts (load_audit whole joined show (λ out. out) (lines (map inl rows))) ≡ 2 ∷ 1 ∷ []
unfolding load_audit counts find put
two_for_one = refl

read_rows-created_example :
    (out : List (String × Bucket ℕ)) × (read_rows whole joined show (map inl rows) [] ≡ inl out)
    × (created whole joined show (find "t/a" out)
        ≡ distinct [] (hold_ids whole joined show "t/a" rows))
read_rows-created_example = read_rows-created whole joined show "t/a" rows

two_ids : distinct [] (hold_ids whole joined show "t/a" rows) ≡ 2
unfolding hold_id customer_key
two_ids = refl
