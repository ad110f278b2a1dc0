-- ===== src/Bank/Delivery.antt =====
-- What one run of `ingest_synced_transactions` does to the database, whatever the AI service answers.
use mathlib.Core.Path.{subst}
use mathlib.Core.List.{append-nil, append_assoc}
use nbe_financial_advisor_ba.Prelude.{
  ℕ, ◌≡◌, refl, sym, ap, ◌∙◌, inl, inr, none, some, List, [], ◌∷◌, ◌++◌, All, length, Bool-cases,
}
use nbe_financial_advisor_ba.Bank.Model.{Transaction}
use nbe_financial_advisor_ba.Bank.Ingest.{
  Entry, Event, Account, Db, Outcome, returned, raised, Environment, ingest_rows, read_date, land,
  new_row,
}
use nbe_financial_advisor_ba.Bank.Analysis.{
  analyse_months, synced_event, finish_ingestion, affected_months, ingest_synced_transactions,
}
use nbe_financial_advisor_ba.Bank.Ledger.{
  IsUnique, IsRecorded, is_recorded, ingest_rows-IsUnique, ingest_rows-IsRecorded,
  ingest_rows_known, read_date-All,
}
use nbe_financial_advisor_ba.Bank.Sweep.{
  IsAnnounced, analyse_months-SameLedger, close_analysis-IsAnnounced,
}

-- The table after new rows, one by one.
abbrev pub stack : List Transaction → List Transaction → List Transaction
stack [] rows = rows
stack (t ∷ new) rows = stack new (t ∷ rows)

stack-append : (n m rows : List Transaction) → stack (n ++ m) rows ≡ stack m (stack n rows)
stack-append [] m rows = refl
stack-append (t ∷ n) m rows = stack-append n m (t ∷ rows)

-- The rows added to the table are those counted as created.
abbrev Adds : List Transaction × List Transaction → List Transaction × List Transaction → Type 0
Adds s s' = (new : List Transaction) × (s'.0 ≡ s.0 ++ new) × (s'.1 ≡ stack new s.1)

no_rows-Adds : (s : List Transaction × List Transaction) → Adds s s
no_rows-Adds s = ([], sym (append-nil s.0), refl)

both_runs-Adds : (s u v : List Transaction × List Transaction) → Adds s u → Adds u v → Adds s v
both_runs-Adds s u v (n, c, r) (m, d, q) = (
  n ++ m,
  d ∙ ap (λ x. x ++ m) c ∙ append_assoc s.0 n m,
  q ∙ ap (stack m) r ∙ sym (stack-append n m s.1),
)

-- Every entry has a date that can be read.
abbrev pub IsReadable : Entry → Type 0
IsReadable e = (date : ℕ) × (e.transaction_date ≡ some date)

module _ (env : Environment) (account : Account) where
  land-Adds :
      (date : ℕ) (e : Entry) (s : List Transaction × List Transaction)
      → Adds s (land env account date e s)
  unfolding land
  land-Adds date e s = elim (Bool-cases (is_recorded env account e date s.1)) [
    | inl known ↦ rw known (no_rows-Adds s)
    | inr unknown ↦ rw unknown (new_row env account (length s.0) date e ∷ [], refl, refl)
  ]

  ingest_rows-Adds :
      (es : List Entry) (s : List Transaction × List Transaction)
      → Adds s (ingest_rows env account es s).1
  unfolding ingest_rows
  ingest_rows-Adds [] s = no_rows-Adds s
  ingest_rows-Adds (e ∷ es) s =
      read_date-All (λ r. Adds s r.1) e.transaction_date s
        (λ date. ingest_rows env account es (land env account date e s)) (no_rows-Adds s)
        (λ date _.
          let s' = land env account date e s in
          both_runs-Adds s s' (ingest_rows env account es s').1 (land-Adds date e s)
            (ingest_rows-Adds es s'))

  -- Readable entries are read to the end, and what follows them runs on what they leave.
  ingest_rows-append :
      (es fs : List Entry) (s : List Transaction × List Transaction)
      → All IsReadable es
      → ingest_rows env account (es ++ fs) s
        ≡ ingest_rows env account fs (ingest_rows env account es s).1
  unfolding ingest_rows read_date
  ingest_rows-append [] fs s readable = refl
  ingest_rows-append (e ∷ es) fs s ((date, read), readable) =
      ap (λ o. read_date o s (λ d. ingest_rows env account (es ++ fs) (land env account d e s)))
        read
      ∙ ingest_rows-append es fs (land env account date e s) readable
      ∙ ap
          (λ o.
            ingest_rows env account fs
              (read_date o s (λ d. ingest_rows env account es (land env account d e s))).1)
          (sym read)

  ingest_rows_returned :
      (es : List Entry) (s : List Transaction × List Transaction)
      → All IsReadable es
      → (ingest_rows env account es s).0 ≡ returned
  unfolding ingest_rows read_date
  ingest_rows_returned [] s readable = refl
  ingest_rows_returned (e ∷ es) s ((date, read), readable) =
      ap (λ o. (read_date o s (λ d. ingest_rows env account es (land env account d e s))).0) read
      ∙ ingest_rows_returned es (land env account date e s) readable

  -- The database once the first event is published.
  unfoldable landed : Db → List Transaction × List Transaction → Db
  landed db s = record db {
    transactions = s.1;
    events = db.events ++ (synced_event env account s.0 ∷ []);
  }

  finish-IsAnnounced :
      (db : Db) (s : List Transaction × List Transaction)
      → IsAnnounced (landed db s) (finish_ingestion env account db (returned, s)).1
  unfolding finish_ingestion landed
  finish-IsAnnounced db ([], rows) =
      (refl, ([], sym (append-nil (db.events ++ (synced_event env account [] ∷ [])))))
  finish-IsAnnounced db (t ∷ ts, rows) =
      let r =
        analyse_months env account (affected_months (t ∷ ts)) ([], landed db (t ∷ ts, rows)) in
      let same =
        analyse_months-SameLedger env account (affected_months (t ∷ ts))
          ([], landed db (t ∷ ts, rows)) in
      let (rows_kept, (more, events)) =
        close_analysis-IsAnnounced env account (length (t ∷ ts)) r in
      (rows_kept ∙ same.0, (more, events ∙ ap (λ es. es ++ more) same.1))

  finish-transactions :
      (db : Db) (o : Outcome) (s : List Transaction × List Transaction)
      → (finish_ingestion env account db (o, s)).1.transactions ≡ s.1
  unfolding finish_ingestion landed
  finish-transactions db raised s = refl
  finish-transactions db returned s = (finish-IsAnnounced db s).0

  ingest-transactions :
      (es : List Entry) (db : Db)
      → (ingest_synced_transactions env (some account) es db).1.transactions
        ≡ (ingest_rows env account es ([], db.transactions)).1.1
  unfolding ingest_synced_transactions
  ingest-transactions es db =
      let r = ingest_rows env account es ([], db.transactions) in finish-transactions db r.0 r.1

  -- A ledger without duplicate rows has none after the task either, whether it returns or raises.
  pub ingest-IsUnique :
      (es : List Entry) (db : Db)
      → IsUnique db.transactions
      → IsUnique (ingest_synced_transactions env (some account) es db).1.transactions
  ingest-IsUnique es db unique =
      subst IsUnique (sym (ingest-transactions es db))
        (ingest_rows-IsUnique env account es ([], db.transactions) unique)

  -- If every date can be read, then whatever the AI service answers and even if the task raises
  -- later, the task adds rows to the ledger and publishes one event that lists exactly their ids,
  -- before any other event of its own.
  pub ingest_announces :
      (es : List Entry) (db : Db)
      → All IsReadable es
      → (new : List Transaction) × (more : List Event) × ((ingest_synced_transactions env
            (some account)
            es
            db).1.transactions
          ≡ stack new db.transactions)
        × ((ingest_synced_transactions env (some account) es db).1.events
            ≡ (db.events ++ (synced_event env account new ∷ [])) ++ more)
  unfolding ingest_synced_transactions landed
  ingest_announces es db readable =
      let start : List Transaction × List Transaction = ([], db.transactions) in
      let r = ingest_rows env account es start in
      let (new, created, rows) = ingest_rows-Adds es start in
      let (kept, (more, events)) = finish-IsAnnounced db r.1 in
      (
        new,
        more,
        ingest-transactions es db ∙ rows,
        ap (λ o. (finish_ingestion env account db (o, r.1)).1.events)
              (ingest_rows_returned es start readable)
            ∙ events
            ∙ ap (λ c. (db.events ++ (synced_event env account c ∷ [])) ++ more) created,
      )

  -- An entry whose date cannot be read, after entries that can be, ends the task: it raises, the rows
  -- of the earlier entries stay in the ledger, and nothing is published, flagged or mailed.
  pub unreadable_date_aborts :
      (good : List Entry) (bad : Entry) (rest : List Entry) (db : Db)
      → All IsReadable good
      → bad.transaction_date ≡ none
      → ingest_synced_transactions env (some account) (good ++ (bad ∷ rest)) db ≡ (
        raised,
        record db {
          transactions = (ingest_synced_transactions env (some account) good db).1.transactions;
        },
      )
  unfolding ingest_synced_transactions ingest_rows read_date finish_ingestion
  unreadable_date_aborts good bad rest db readable unreadable =
      let start : List Transaction × List Transaction = ([], db.transactions) in
      let s = (ingest_rows env account good start).1 in
      ap (finish_ingestion env account db) (
        ingest_rows-append good (bad ∷ rest) start readable
        ∙ ap (λ o. read_date o s (λ d. ingest_rows env account rest (land env account d bad s)))
            unreadable)
      ∙ ap (λ rows. (raised, record db { transactions = rows })) (sym (ingest-transactions good db))

-- Where every date can be read: if the same entries are delivered again, then whatever the AI service
-- answers either time, the second run returns and only publishes the event of an empty sync.
pub redelivery_adds_nothing :
    (env later_env : Environment) (account : Account) (es : List Entry) (db : Db)
    → All IsReadable es
    → (let db' : Db = (ingest_synced_transactions env (some account) es db).1 in
        ingest_synced_transactions later_env (some account) es db' ≡ (
          returned,
          record db' { events = db'.events ++ (synced_event later_env account [] ∷ []) },
        ))
unfolding ingest_synced_transactions finish_ingestion
redelivery_adds_nothing env later_env account es db readable =
    let start : List Transaction × List Transaction = ([], db.transactions) in
    let db' : Db = (ingest_synced_transactions env (some account) es db).1 in
    let recorded : All (IsRecorded env account db'.transactions) es =
      subst (λ rows. All (IsRecorded env account rows) es)
        (sym (ingest-transactions env account es db))
        (ingest_rows-IsRecorded env account es start
          (ingest_rows_returned env account es start readable)) in
    ap (finish_ingestion later_env account db')
      (ingest_rows_known later_env account es ([], db'.transactions) recorded)
