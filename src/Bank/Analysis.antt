-- ===== src/Bank/Analysis.antt =====
-- The rest of `ingest_synced_transactions`: its events, and the sweep of the AI service over the
-- months of the new rows.
use nbe_financial_advisor_ba.Prelude.{
  ℕ, ◌/◌, Bool, false, Option, none, some, List, [], ◌∷◌, ◌++◌, ◌||◌, ◌==◌, if◌then◌else◌, length,
}
use nbe_financial_advisor_ba.Prelude.Text.{Text, codes}
use nbe_financial_advisor_ba.Bank.Model.{Transaction}
use nbe_financial_advisor_ba.Bank.Ingest.{
  Entry, Anomaly, AnomalyFlag, Event, transaction_synced, anomaly_detected, unusual_activity,
  new_transactions, Account, Db, Outcome, returned, raised, Environment, ingest_rows,
}

-- `transaction_date.strftime("%Y-%m")`, as year * 100 + month
abbrev pub month_of : Transaction → ℕ
month_of t = t.transaction_date / 100

abbrev pub has_month : ℕ → List ℕ → Bool
has_month m [] = false
has_month m (n ∷ ns) = (n == m) || has_month m ns

add_month : ℕ → List ℕ → List ℕ
add_month m ms = if has_month m ms then ms else ms ++ (m ∷ [])

months_from : List ℕ → List Transaction → List ℕ
unfolding add_month
months_from ms [] = ms
months_from ms (t ∷ ts) = months_from (add_month (month_of t) ms) ts

-- `{t.transaction_date.strftime("%Y-%m") for t in created}`
unfoldable pub affected_months : List Transaction → List ℕ
unfolding months_from
affected_months ts = months_from [] ts

-- `anomaly.get("reason", "")`
abbrev or_blank : Option Text → Text
or_blank none = []
or_blank (some s) = s

unfoldable pub flag_ids : List AnomalyFlag → List ℕ
flag_ids [] = []
flag_ids (f ∷ fs) = f.id ∷ flag_ids fs

unfoldable pub row_ids : List Transaction → List ℕ
row_ids [] = []
row_ids (t ∷ ts) = t.id ∷ row_ids ts

module _ (env : Environment) (account : Account) where
  -- `AnomalyFlag.objects.create`, for an anomaly with a month
  unfoldable pub new_flag : ℕ → Text → Anomaly → AnomalyFlag
  new_flag n month a = record {
    id = env.flag_id n;
    user = account.user;
    account = account.id;
    category = a.category;
    month = month ++ codes "-01";
    amount = a.amount;
    reason = or_blank a.reason;
    severity = codes "medium";
  }

  unfoldable pub flag_anomaly : AnomalyFlag → List AnomalyFlag × Db → List AnomalyFlag × Db
  flag_anomaly f (found, db) = (
    found ++ (f ∷ []),
    record db {
      anomaly_flags = db.anomaly_flags ++ (f ∷ []);
      emails = db.emails ++ (unusual_activity f.id ∷ []);
    },
  )

  unfoldable pub read_month :
      Option Text
      → List AnomalyFlag × Db
      → (Text → Outcome × (List AnomalyFlag × Db))
      → Outcome × (List AnomalyFlag × Db)
  read_month none s rest = (raised, s)
  read_month (some month) s rest = rest month

  -- The loop over the anomalies of one month.
  unfoldable pub flag_anomalies :
      List Anomaly → List AnomalyFlag × Db → Outcome × (List AnomalyFlag × Db)
  unfolding flag_anomaly read_month
  flag_anomalies [] s = (returned, s)
  flag_anomalies (a ∷ rest) s =
      read_month a.month s
        (λ month. flag_anomalies rest (flag_anomaly (new_flag (length s.0) month a) s))

  -- The loop goes on unless it was left by an exception.
  unfoldable pub proceed :
      Outcome × (List AnomalyFlag × Db)
      → (List AnomalyFlag × Db → Outcome × (List AnomalyFlag × Db))
      → Outcome × (List AnomalyFlag × Db)
  proceed (raised, s) rest = (raised, s)
  proceed (returned, s) rest = rest s

  -- One month: an `AIServiceError` is passed over.
  unfoldable pub analyse_month :
      Option (List Anomaly) → List AnomalyFlag × Db → Outcome × (List AnomalyFlag × Db)
  analyse_month none s = (returned, s)
  analyse_month (some found) s = flag_anomalies found s

  -- The loop over the months.
  unfoldable pub analyse_months : List ℕ → List AnomalyFlag × Db → Outcome × (List AnomalyFlag × Db)
  unfolding proceed analyse_month
  analyse_months [] s = (returned, s)
  analyse_months (m ∷ ms) s =
      proceed (analyse_month (env.run_post_ingestion_analysis account.user account.id m) s)
        (λ s'. analyse_months ms s')

  -- The `finally` block.
  unfoldable pub announce_anomalies : List AnomalyFlag → Db → Db
  unfolding flag_ids
  announce_anomalies [] db = db
  announce_anomalies (f ∷ fs) db = record db {
    events = db.events ++ (anomaly_detected account.id (flag_ids (f ∷ fs)) ∷ []);
  }

  unfoldable pub close_analysis : ℕ → Outcome × (List AnomalyFlag × Db) → Outcome × Db
  unfolding announce_anomalies
  close_analysis count (raised, (found, db)) = (raised, announce_anomalies found db)
  close_analysis count (returned, (found, db)) = (
    returned,
    announce_anomalies found (record db { emails = db.emails ++ (new_transactions count ∷ []) }),
  )

  unfoldable pub synced_event : List Transaction → Event
  synced_event created = transaction_synced account.id (length created) (row_ids created)

  -- From the end of the loop over the entries to the end of the task.
  unfoldable pub finish_ingestion :
      Db → Outcome × (List Transaction × List Transaction) → Outcome × Db
  unfolding close_analysis
  finish_ingestion db (raised, (created, rows)) = (raised, record db { transactions = rows })
  finish_ingestion db (returned, ([], rows)) =
      (returned, record db { transactions = rows; events = db.events ++ (synced_event [] ∷ []) })
  finish_ingestion db (returned, (t ∷ ts, rows)) = close_analysis (length (t ∷ ts)) (
      analyse_months (affected_months (t ∷ ts))
        ([], record db { transactions = rows; events = db.events ++ (synced_event (t ∷ ts) ∷ []) }))

-- `ingest_synced_transactions`, on the account that the query for the id finds
unfoldable pub ingest_synced_transactions :
    Environment → Option Account → List Entry → Db → Outcome × Db
ingest_synced_transactions env none es db = (returned, db)
ingest_synced_transactions env (some account) es db =
    finish_ingestion env account db (ingest_rows env account es ([], db.transactions))
