-- ===== src/Wallet/Audit/Holds.antt =====
-- What the counter of holds counts (internal/wallet/balance_audit.go).
use aforo_nextgen_loadgen.Base.{
  inl, inr, ℕ, suc, ◌+◌, ◌≡◌, refl, subst, sym, ap, ◌∙◌, Bool, true, false, ◌&&◌, ◌||◌, String,
  Option, none, some, List, [], ◌∷◌, map, arith, find, put, is_key, find-put, is_key_eq,
  if◌then◌else◌, Bool-cases, Option-cases,
}
use aforo_nextgen_loadgen.Base.Floats.{Floats}
use aforo_nextgen_loadgen.Lifecycle.Wire.{Strings}
use aforo_nextgen_loadgen.Wallet.Audit.{
  AuditRow, WireRow, Bucket, customer_key, hold_id, note_phase, note_state, note_snapshot,
  note_hold, note_row, bucket_of, read_rows,
}
use aforo_nextgen_loadgen.Wallet.Audit.Own.{own_rows, read_rows-own_rows}

abbrev pub is_seen : String → List String → Bool
is_seen i [] = false
is_seen i (j ∷ seen) = is_key j i || is_seen i seen

-- How many different ids there are, besides those that were seen before.
abbrev pub distinct : List String → List String → ℕ
distinct seen [] = 0
distinct seen (i ∷ rest) =
    let later = distinct (i ∷ seen) rest in if is_seen i seen then later else suc later

is_present : {V : Type 0} → Option V → Bool
is_present none = false
is_present (some v) = true

module _ (fl : Floats) (lib : Strings) (show : fl.Float → String) where
  -- The ids of one customer's hold events, in order.
  abbrev pub hold_ids : String → List (WireRow fl.Float) → List String
  hold_ids k [] = []
  hold_ids k (r ∷ rest) =
      let later = hold_ids k rest in
      if is_key (customer_key fl lib show r) k && is_key r.kind "hold_event"
      then hold_id fl lib show r ∷ later
      else later

  abbrev pub created : Option (Bucket fl.Float) → ℕ
  created none = 0
  created (some b) = b.row.holds_created

  abbrev seen_of : Option (Bucket fl.Float) → List (String × String)
  seen_of none = []
  seen_of (some b) = b.seen

  abbrev IsTracked : List String → List (String × String) → Type 0
  IsTracked ids seen = (i : String) → is_present (find i seen) ≡ is_seen i ids

  note_state-created :
      (row : AuditRow fl.Float) (state prior : String)
      → (note_state fl lib show row state prior).holds_created ≡ row.holds_created
  unfolding note_state
  note_state-created row state prior = ground arith

  note_phase-created :
      (row : AuditRow fl.Float) (r : WireRow fl.Float)
      → (note_phase fl lib show row r).holds_created ≡ row.holds_created
  unfolding note_phase
  note_phase-created row r = ground arith

  IsTracked-put :
      (ids : List String) (seen : List (String × String)) (i state : String)
      → IsTracked ids seen
      → IsTracked (i ∷ ids) (put i state seen)
  unfolding is_present
  IsTracked-put ids seen i state h j =
      rw (find-put i j state seen)
        (elim (Bool-cases (is_key i j)) [ inl same ↦ rw same refl | inr other ↦ rw other (h j) ])

  note_hold-created :
      (b : Bucket fl.Float) (r : WireRow fl.Float)
      → ((note_hold fl lib show b r).row.holds_created ≡ (
          if is_present (find (hold_id fl lib show r) b.seen)
          then b.row.holds_created
          else suc b.row.holds_created))
        × ((note_hold fl lib show b r).seen ≡ put (hold_id fl lib show r) r.state b.seen)
  unfolding note_hold is_present
  note_hold-created b r = elim (Option-cases (find (hold_id fl lib show r) b.seen)) [
    | inl new ↦ rw (new, note_hold) (note_state-created _ r.state "", refl)
    | inr (prior, old) ↦ rw (old, note_hold) (note_state-created b.row r.state prior, refl)
  ]

  note_row-hold :
      (b : Bucket fl.Float) (r : WireRow fl.Float)
      → is_key r.kind "hold_event" ≡ true
      → note_row fl lib show b r ≡ note_hold fl lib show b r
  unfolding note_row
  note_row-hold b r h = rw (is_key_eq r.kind "hold_event" h, note_row) refl

  note_row-other :
      (b : Bucket fl.Float) (r : WireRow fl.Float)
      → is_key r.kind "hold_event" ≡ false
      → ((note_row fl lib show b r).row.holds_created ≡ b.row.holds_created)
        × ((note_row fl lib show b r).seen ≡ b.seen)
  unfolding note_row note_snapshot
  note_row-other b r h = elim (Bool-cases (is_key r.kind "snapshot")) [
    | inl snap ↦ rw (snap, note_row) (note_phase-created b.row r, refl)
    | inr neither ↦ rw (neither, note_row) (rw h (refl, refl))
  ]

  bucket_of-same :
      (r : WireRow fl.Float) (ob : Option (Bucket fl.Float))
      → ((bucket_of fl lib show r ob).row.holds_created ≡ created ob)
        × ((bucket_of fl lib show r ob).seen ≡ seen_of ob)
  unfolding bucket_of
  bucket_of-same r none = (refl, refl)
  bucket_of-same r (some b) = (refl, refl)

  own_rows-created :
      (k : String) (rows : List (WireRow fl.Float)) (ob : Option (Bucket fl.Float))
      (ids : List String)
      → IsTracked ids (seen_of ob)
      → created (own_rows fl lib show k rows ob) ≡ created ob + distinct ids (hold_ids k rows)
  own_rows-created k [] ob ids h = omega arith
  own_rows-created k (r ∷ rest) ob ids h =
      elim (Bool-cases (is_key (customer_key fl lib show r) k)) [
        | inr other ↦ rw other (own_rows-created k rest ob ids h)
        | inl own ↦
            let b = bucket_of fl lib show r ob in
            let (same_count, same_seen) = bucket_of-same r ob in
            elim (Bool-cases (is_key r.kind "hold_event")) [
              | inr quiet ↦
                  let (count, seen) = note_row-other b r quiet in
                  let later =
                    own_rows-created k rest (some (note_row fl lib show b r)) ids
                      (subst (IsTracked ids) (sym (seen ∙ same_seen)) h) in
                  rw own (rw quiet (omega (arith, later, count, same_count)))
              | inl hold ↦
                  let id = hold_id fl lib show r in
                  let next = note_row fl lib show b r in
                  let is_noted = note_row-hold b r hold in
                  let (count, seen) = note_hold-created b r in
                  let known : is_present (find id b.seen) ≡ is_seen id ids =
                    ap (λ s. is_present (find id s)) same_seen ∙ h id in
                  let counted : next.row.holds_created
                      ≡ (if is_seen id ids then created ob else suc (created ob)) =
                    ap (λ (c : Bucket fl.Float). c.row.holds_created) is_noted
                    ∙ count
                    ∙ rw (known, same_count) refl in
                  let tracked : IsTracked (id ∷ ids) next.seen =
                    subst (IsTracked (id ∷ ids))
                      (sym (ap (λ (c : Bucket fl.Float). c.seen) is_noted ∙ seen))
                      (IsTracked-put ids b.seen id r.state
                        (subst (IsTracked ids) (sym same_seen) h)) in
                  let later = own_rows-created k rest (some next) (id ∷ ids) tracked in
                  rw own (rw hold (ground (arith, later, counted)))
            ]
      ]

  -- On a file without decoding errors, the number of holds created that is reported for a customer is the
  -- number of different ids of the hold events in that customer's own rows, where an id is the wallet, the
  -- state and the amount: one hold counts once in each state, and two of an amount count as one.
  pub read_rows-created :
      (k : String) (rows : List (WireRow fl.Float))
      → (out : List (String × Bucket fl.Float)) × (read_rows fl lib show (map inl rows) []
          ≡ inl out)
        × (created (find k out) ≡ distinct [] (hold_ids k rows))
  unfolding is_present find
  read_rows-created k rows =
      let (out, read, found) = read_rows-own_rows fl lib show k rows [] in
      let counted = own_rows-created k rows none [] (λ i. refl) in
      (out, read, ap created found ∙ omega (arith, counted))
