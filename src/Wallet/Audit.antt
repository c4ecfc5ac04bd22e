-- ===== src/Wallet/Audit.antt =====
-- internal/wallet/balance_audit.go: the summary of each customer's wallet from the rows of
-- wallet_audit.jsonl, and the arithmetic that Check 17 asks of it. Counts are not negative.
use aforo_nextgen_loadgen.Base.{
  ◌⊎◌, inl, inr, ℕ, suc, Bool, true, false, not, ◌&&◌, String, Option, none, some, List, [], ◌∷◌,
  map, find, put, is_key, if◌then◌else◌,
}
use aforo_nextgen_loadgen.Base.Floats.{Floats}
use aforo_nextgen_loadgen.Lifecycle.Wire.{Strings}
pub mod Own
pub mod Holds

pub record AuditRow (F : Type 0) : Type 0 where
  pub tenant_id : String
  pub customer_id : String
  pub wallet_id : String
  pub currency : String
  pub initial_balance : F
  pub final_balance : F
  pub held_at_run_end : F
  pub held_at_final : F
  pub holds_created : ℕ
  pub holds_released : ℕ
  pub holds_settled : ℕ
  pub outstanding_holds : ℕ
  pub balance_delta : F
  pub holds_le_balance : Bool

pub record WireRow (F : Type 0) : Type 0 where
  pub kind : String
  pub tenant_id : String
  pub customer_id : String
  pub wallet_id : String
  pub currency : String
  pub balance_usd : F
  pub held_usd : F
  pub hold_usd : F
  pub phase : String
  pub state : String
  pub holds_active : ℕ

-- `seen` is by the hold's id.
pub record Bucket (F : Type 0) : Type 0 where
  pub row : AuditRow F
  pub seen : List (String × String)
  pub max_held_during_run : F

-- The file: its lines are the rows or, where the decoder fails, its error.
pub data AuditFile (F : Type 0) : Type 0 where
  missing : AuditFile F
  unreadable : String → AuditFile F
  lines : List (WireRow F ⊎ String) → AuditFile F

-- `show` is fmt.Sprintf("%v", …) on an amount.
module _ (fl : Floats) (lib : Strings) (show : fl.Float → String) where
  unfoldable pub customer_key : WireRow fl.Float → String
  customer_key r = lib.join r.tenant_id (lib.join "/" r.customer_id)

  unfoldable pub hold_id : WireRow fl.Float → String
  hold_id r =
      lib.join r.wallet_id (lib.join "/" (lib.join r.state (lib.join "/" (show r.hold_usd))))

  unfoldable pub new_bucket : WireRow fl.Float → Bucket fl.Float
  new_bucket r = record {
    row = record {
      tenant_id = r.tenant_id;
      customer_id = r.customer_id;
      wallet_id = r.wallet_id;
      currency = r.currency;
      initial_balance = fl.of_int 0;
      final_balance = fl.of_int 0;
      held_at_run_end = fl.of_int 0;
      held_at_final = fl.of_int 0;
      holds_created = 0;
      holds_released = 0;
      holds_settled = 0;
      outstanding_holds = 0;
      balance_delta = fl.of_int 0;
      holds_le_balance = false;
    };
    seen = [];
    max_held_during_run = fl.of_int 0;
  }

  unfoldable pub note_phase : AuditRow fl.Float → WireRow fl.Float → AuditRow fl.Float
  note_phase row r =
      if is_key r.phase "pre"
      then record row {
        initial_balance = r.balance_usd;
        wallet_id = r.wallet_id;
        currency = (if is_key r.currency "" then row.currency else r.currency);
      }
      else if is_key r.phase "post"
      then record row { held_at_run_end = r.held_usd }
      else if is_key r.phase "post-expiry"
      then record row {
        final_balance = r.balance_usd;
        held_at_final = r.held_usd;
        outstanding_holds = r.holds_active;
      }
      else row

  unfoldable pub note_snapshot : Bucket fl.Float → WireRow fl.Float → Bucket fl.Float
  unfolding note_phase
  note_snapshot b r = record b {
    row = note_phase b.row r;
    max_held_during_run =
        (if fl.lt b.max_held_during_run r.held_usd then r.held_usd else b.max_held_during_run);
  }

  -- `prior` is the state that was seen before under the same id.
  unfoldable pub note_state : AuditRow fl.Float → String → String → AuditRow fl.Float
  note_state row state prior =
      if is_key state prior
      then row
      else if is_key state "RELEASED"
      then record row { holds_released = suc row.holds_released }
      else if is_key state "SETTLED"
      then record row { holds_settled = suc row.holds_settled }
      else row

  unfoldable pub note_hold : Bucket fl.Float → WireRow fl.Float → Bucket fl.Float
  unfolding hold_id note_state
  note_hold b r =
      let seen = put (hold_id r) r.state b.seen in
      elim (find (hold_id r) b.seen) [
        | none ↦ record b {
          row = note_state (record b.row { holds_created = suc b.row.holds_created }) r.state "";
          seen = seen;
        }
        | some prior ↦ record b { row = note_state b.row r.state prior; seen = seen }
      ]

  -- The switch on the type of a row.
  unfoldable pub note_row : Bucket fl.Float → WireRow fl.Float → Bucket fl.Float
  unfolding note_snapshot note_hold
  note_row b r =
      if is_key r.kind "snapshot"
      then note_snapshot b r
      else if is_key r.kind "hold_event"
      then note_hold b r
      else b

  unfoldable pub bucket_of : WireRow fl.Float → Option (Bucket fl.Float) → Bucket fl.Float
  unfolding new_bucket
  bucket_of r none = new_bucket r
  bucket_of r (some b) = b

  unfoldable pub read_rows :
      List (WireRow fl.Float ⊎ String)
      → List (String × Bucket fl.Float)
      → List (String × Bucket fl.Float) ⊎ String
  unfolding note_row bucket_of customer_key
  read_rows [] by_cust = inl by_cust
  read_rows (inr e ∷ rest) by_cust = inr e
  read_rows (inl r ∷ rest) by_cust =
      let key = customer_key r in
      read_rows rest (put key (note_row (bucket_of r (find key by_cust)) r) by_cust)

  unfoldable pub round2 : fl.Float → fl.Float
  round2 v = fl.quot (fl.round (fl.mul v (fl.of_int 100))) (fl.of_int 100)

  unfoldable pub summary : Bucket fl.Float → AuditRow fl.Float
  unfolding round2
  summary b =
      let cent = fl.quot (fl.of_int 1) (fl.of_int 100) in
      record b.row {
        balance_delta = round2 (fl.sub b.row.final_balance b.row.initial_balance);
        holds_le_balance = fl.le b.max_held_during_run (fl.add b.row.initial_balance cent);
      }

  -- `sort_rows` is sort.Slice by the customer's id.
  unfoldable pub load_audit :
      (List (AuditRow fl.Float) → List (AuditRow fl.Float))
      → AuditFile fl.Float
      → List (AuditRow fl.Float) ⊎ String
  unfolding read_rows summary
  load_audit sort_rows missing = inl []
  load_audit sort_rows (unreadable e) = inr e
  load_audit sort_rows (lines ls) = elim (read_rows ls []) [
    | inl by_cust ↦ inl (sort_rows (map (λ (e : String × Bucket fl.Float). summary e.1) by_cust))
    | inr e ↦ inr e
  ]

  -- Reconcile, without the text of the reason.
  unfoldable pub reconcile : AuditRow fl.Float → fl.Float → fl.Float → fl.Float → Bool
  unfolding round2
  reconcile row committed_charges refunds tolerance =
      let expected = round2 (fl.add (fl.sub row.initial_balance committed_charges) refunds) in
      let diff = fl.sub row.final_balance expected in
      let delta = if fl.lt diff (fl.of_int 0) then fl.sub (fl.of_int 0) diff else diff in
      let cent = fl.quot (fl.of_int 1) (fl.of_int 100) in
      fl.le delta (if fl.le tolerance (fl.of_int 0) then cent else tolerance)
