-- ===== src/Bank/Ledger.antt =====
-- The loop of `ingest_synced_transactions` on the ledger, seen through the identity of its rows.
use nbe_financial_advisor_ba.Prelude.{
  ℕ, ◌≡◌, refl, ap, ◌∙◌, inl, inr, Bool, true, false, Option, none, some, List, [], ◌∷◌, arith, All,
  Bool-cases, length,
}
use nbe_financial_advisor_ba.Prelude.Text.{Text, text_eq_iff}
use nbe_financial_advisor_ba.Prelude.Int.{int_eq_iff}
use nbe_financial_advisor_ba.Bank.Model.{Transaction, is_match, is_duplicate, option_text_eq}
use nbe_financial_advisor_ba.Bank.Ingest.{
  Entry, Account, Outcome, returned, raised, Environment, new_row, land, ingest_rows, read_date,
}

-- No two rows agree on user, account, date, amount, merchant and direction.
abbrev pub IsUnique : List Transaction → Type 0
IsUnique [] = Unit
IsUnique (t ∷ ts) =
    (is_duplicate t.user t.account t.transaction_date t.amount t.merchant_raw t.transaction_type ts
      ≡ false)
    × IsUnique ts

option_text_eq_refl : (s : Option Text) → option_text_eq s s ≡ true
option_text_eq_refl none = refl
option_text_eq_refl (some s) = (text_eq_iff s s).1 refl

-- A row agrees with itself.
pub is_match_self :
    (t : Transaction)
    → is_match t.user t.account t.transaction_date t.amount t.merchant_raw t.transaction_type t
      ≡ true
unfolding is_match
is_match_self t = grind (
  arith,
  (int_eq_iff t.amount t.amount).1 refl,
  option_text_eq_refl t.merchant_raw,
  option_text_eq_refl t.transaction_type,
)

-- What holds where the date cannot be read and after each date that is read holds.
pub read_date-All {ℓ} :
    {S : Type ℓ} (P : Outcome × S → Type 0) (o : Option ℕ) (s : S) (rest : ℕ → Outcome × S)
    → P (raised, s)
    → ((date : ℕ) → o ≡ some date → P (rest date))
    → P (read_date o s rest)
unfolding read_date
read_date-All P none s rest aborted later = aborted
read_date-All P (some date) s rest aborted later = later date refl

module _ (env : Environment) (account : Account) where
  -- The ledger has a row for the entry.
  abbrev pub is_recorded : Entry → ℕ → List Transaction → Bool
  is_recorded e date rows =
      is_duplicate account.user account.id date e.amount e.merchant_raw e.transaction_type rows

  abbrev pub IsRecorded : List Transaction → Entry → Type 0
  IsRecorded rows e =
      (date : ℕ) × (e.transaction_date ≡ some date) × (is_recorded e date rows ≡ true)

  new_row-recorded :
      (n date : ℕ) (e : Entry) (rows : List Transaction)
      → is_recorded e date (new_row env account n date e ∷ rows) ≡ true
  unfolding is_duplicate is_match new_row
  new_row-recorded n date e rows = grind (
    arith,
    (int_eq_iff e.amount e.amount).1 refl,
    option_text_eq_refl e.merchant_raw,
    option_text_eq_refl e.transaction_type,
  )

  land-IsUnique :
      (date : ℕ) (e : Entry) (created rows : List Transaction)
      → IsUnique rows
      → IsUnique (land env account date e (created, rows)).1
  unfolding land new_row
  land-IsUnique date e created rows unique = elim (Bool-cases (is_recorded e date rows)) [
    | inl known ↦ rw known unique
    | inr unknown ↦ rw unknown (unknown, unique)
  ]

  pub ingest_rows-IsUnique :
      (es : List Entry) (s : List Transaction × List Transaction)
      → IsUnique s.1
      → IsUnique (ingest_rows env account es s).1.1
  unfolding ingest_rows
  ingest_rows-IsUnique [] s unique = unique
  ingest_rows-IsUnique (e ∷ es) s unique =
      read_date-All (λ r. IsUnique r.1.1) e.transaction_date s
        (λ date. ingest_rows env account es (land env account date e s)) unique
        (λ date _.
          ingest_rows-IsUnique es (land env account date e s) (land-IsUnique date e s.0 s.1 unique))

  -- What is recorded stays recorded.
  land-keeps :
      (d date : ℕ) (f e : Entry) (s : List Transaction × List Transaction)
      → is_recorded f d s.1 ≡ true
      → is_recorded f d (land env account date e s).1 ≡ true
  unfolding land is_duplicate
  land-keeps d date f e s known = ground (arith, known)

  ingest_rows-keeps :
      (d : ℕ) (f : Entry) (es : List Entry) (s : List Transaction × List Transaction)
      → is_recorded f d s.1 ≡ true
      → is_recorded f d (ingest_rows env account es s).1.1 ≡ true
  unfolding ingest_rows
  ingest_rows-keeps d f [] s known = known
  ingest_rows-keeps d f (e ∷ es) s known =
      read_date-All (λ r. is_recorded f d r.1.1 ≡ true) e.transaction_date s
        (λ date. ingest_rows env account es (land env account date e s)) known
        (λ date _.
          ingest_rows-keeps d f es (land env account date e s) (land-keeps d date f e s known))

  land-records :
      (date : ℕ) (e : Entry) (s : List Transaction × List Transaction)
      → is_recorded e date (land env account date e s).1 ≡ true
  unfolding land
  land-records date e (created, rows) = elim (Bool-cases (is_recorded e date rows)) [
    | inl known ↦ rw known known
    | inr unknown ↦ rw unknown (new_row-recorded (length created) date e rows)
  ]

  -- A run that returns has a row for every entry.
  pub ingest_rows-IsRecorded :
      (es : List Entry) (s : List Transaction × List Transaction)
      → (ingest_rows env account es s).0 ≡ returned
      → All (IsRecorded (ingest_rows env account es s).1.1) es
  unfolding ingest_rows
  ingest_rows-IsRecorded [] s = λ done. tt
  ingest_rows-IsRecorded (e ∷ es) s =
      read_date-All (λ r. r.0 ≡ returned → All (IsRecorded r.1.1) (e ∷ es)) e.transaction_date s
        (λ date. ingest_rows env account es (land env account date e s))
        (λ aborted. absurd (ground (arith, aborted)))
        (λ date read done.
          let s' = land env account date e s in
          (
            (date, read, ingest_rows-keeps date e es s' (land-records date e s)),
            ingest_rows-IsRecorded es s' done,
          ))

  land_known :
      (date : ℕ) (e : Entry) (s : List Transaction × List Transaction)
      → is_recorded e date s.1 ≡ true
      → land env account date e s ≡ s
  unfolding land
  land_known date e s known = rw known refl

  -- Entries that are all recorded change nothing.
  pub ingest_rows_known :
      (es : List Entry) (s : List Transaction × List Transaction)
      → All (IsRecorded s.1) es
      → ingest_rows env account es s ≡ (returned, s)
  unfolding ingest_rows read_date
  ingest_rows_known [] s every = refl
  ingest_rows_known (e ∷ es) s ((date, read, known), every) =
      ap (λ o. read_date o s (λ d. ingest_rows env account es (land env account d e s))) read
      ∙ ap (ingest_rows env account es) (land_known date e s known)
      ∙ ingest_rows_known es s every
