-- ===== src/Wallet/Audit/Own.antt =====
-- Each customer's summary depends on the rows of that customer alone (internal/wallet/balance_audit.go).
use aforo_nextgen_loadgen.Base.{
  inl, inr, ◌≡◌, refl, ap, ◌∙◌, String, Option, some, List, [], ◌∷◌, map, find, put, is_key,
  find-put, is_key_eq, if◌then◌else◌, Bool-cases,
}
use aforo_nextgen_loadgen.Base.Floats.{Floats}
use aforo_nextgen_loadgen.Lifecycle.Wire.{Strings}
use aforo_nextgen_loadgen.Wallet.Audit.{
  WireRow, Bucket, customer_key, note_row, bucket_of, read_rows,
}

module _ (fl : Floats) (lib : Strings) (show : fl.Float → String) where
  -- The rows of one customer, noted in order.
  abbrev pub own_rows :
      String → List (WireRow fl.Float) → Option (Bucket fl.Float) → Option (Bucket fl.Float)
  own_rows k [] b = b
  own_rows k (r ∷ rest) b =
      let own = own_rows k rest (some (note_row fl lib show (bucket_of fl lib show r b) r)) in
      let others = own_rows k rest b in
      if is_key (customer_key fl lib show r) k then own else others

  pub read_rows-own_rows :
      (k : String) (rows : List (WireRow fl.Float)) (m : List (String × Bucket fl.Float))
      → (out : List (String × Bucket fl.Float)) × (read_rows fl lib show (map inl rows) m ≡ inl out)
        × (find k out ≡ own_rows k rows (find k m))
  unfolding read_rows
  read_rows-own_rows k [] m = (m, refl, refl)
  read_rows-own_rows k (r ∷ rest) m =
      let key = customer_key fl lib show r in
      let noted = note_row fl lib show (bucket_of fl lib show r (find key m)) r in
      let (out, read, found) = read_rows-own_rows k rest (put key noted m) in
      (
        out,
        read,
        elim (Bool-cases (is_key key k)) [
          | inl own ↦ rw (own) (
              found
              ∙ ap (own_rows k rest) (find-put key k noted m)
              ∙ rw own (
                  ap
                    (λ j.
                      own_rows k rest
                        (some (note_row fl lib show (bucket_of fl lib show r (find j m)) r)))
                    (is_key_eq key k own)))
          | inr other ↦
              rw (other) (found ∙ ap (own_rows k rest) (find-put key k noted m) ∙ rw other refl)
        ],
      )
