-- ===== src/Bank/Sweep.antt =====
-- The ledger and the events over the sweep of the AI service.
use mathlib.Core.List.{append-nil}
use nbe_financial_advisor_ba.Prelude.{
  ℕ, ◌≡◌, refl, sym, ◌∙◌, Option, none, some, List, [], ◌∷◌, ◌++◌, length,
}
use nbe_financial_advisor_ba.Prelude.Text.{Text}
use nbe_financial_advisor_ba.Bank.Ingest.{
  Anomaly, AnomalyFlag, Event, anomaly_detected, Account, Db, Outcome, returned, raised,
  new_transactions, Environment,
}
use nbe_financial_advisor_ba.Bank.Analysis.{
  read_month, flag_anomalies, proceed, analyse_month, analyse_months, close_analysis,
  announce_anomalies, new_flag, flag_anomaly, flag_ids,
}

-- The later database has the ledger and the events of the earlier one.
abbrev pub SameLedger : Db → Db → Type 0
SameLedger db db' = (db'.transactions ≡ db.transactions) × (db'.events ≡ db.events)

-- The later database has the ledger of the earlier one, and its events come first.
abbrev pub IsAnnounced : Db → Db → Type 0
IsAnnounced db db' =
    (db'.transactions ≡ db.transactions) × ((more : List Event) × (db'.events ≡ db.events ++ more))

module _ (env : Environment) (account : Account) where
  read_month-SameLedger :
      (db : Db) (month : Option Text) (s : List AnomalyFlag × Db)
      (rest : Text → Outcome × (List AnomalyFlag × Db))
      → SameLedger db s.1
      → ((m : Text) → SameLedger db (rest m).1.1)
      → SameLedger db (read_month env account month s rest).1.1
  unfolding read_month
  read_month-SameLedger db none s rest same later = same
  read_month-SameLedger db (some m) s rest same later = later m

  flag_anomalies-SameLedger :
      (found : List Anomaly) (s : List AnomalyFlag × Db)
      → SameLedger s.1 (flag_anomalies env account found s).1.1
  unfolding flag_anomalies flag_anomaly
  flag_anomalies-SameLedger [] s = (refl, refl)
  flag_anomalies-SameLedger (a ∷ rest) s =
      let next : Text → List AnomalyFlag × Db =
        λ m. flag_anomaly env account (new_flag env account (length s.0) m a) s in
      read_month-SameLedger s.1 a.month s (λ m. flag_anomalies env account rest (next m))
        (refl, refl) (λ m. flag_anomalies-SameLedger rest (next m))

  analyse_month-SameLedger :
      (found : Option (List Anomaly)) (s : List AnomalyFlag × Db)
      → SameLedger s.1 (analyse_month env account found s).1.1
  unfolding analyse_month
  analyse_month-SameLedger none s = (refl, refl)
  analyse_month-SameLedger (some found) s = flag_anomalies-SameLedger found s

  proceed-SameLedger :
      (db : Db) (r : Outcome × (List AnomalyFlag × Db))
      (rest : List AnomalyFlag × Db → Outcome × (List AnomalyFlag × Db))
      → SameLedger db r.1.1
      → ((s : List AnomalyFlag × Db) → SameLedger s.1 (rest s).1.1)
      → SameLedger db (proceed env account r rest).1.1
  unfolding proceed
  proceed-SameLedger db (raised, s) rest same later = same
  proceed-SameLedger db (returned, s) rest (rows, events) later =
      ((later s).0 ∙ rows, (later s).1 ∙ events)

  pub analyse_months-SameLedger :
      (ms : List ℕ) (s : List AnomalyFlag × Db)
      → SameLedger s.1 (analyse_months env account ms s).1.1
  unfolding analyse_months
  analyse_months-SameLedger [] s = (refl, refl)
  analyse_months-SameLedger (m ∷ ms) s =
      let answer = env.run_post_ingestion_analysis account.user account.id m in
      proceed-SameLedger s.1 (analyse_month env account answer s)
        (λ s'. analyse_months env account ms s') (analyse_month-SameLedger answer s)
        (analyse_months-SameLedger ms)

  announce_anomalies-IsAnnounced :
      (found : List AnomalyFlag) (db : Db)
      → IsAnnounced db (announce_anomalies env account found db)
  unfolding announce_anomalies
  announce_anomalies-IsAnnounced [] db = (refl, ([], sym (append-nil db.events)))
  announce_anomalies-IsAnnounced (f ∷ fs) db =
      (refl, (anomaly_detected account.id (flag_ids (f ∷ fs)) ∷ [], refl))

  pub close_analysis-IsAnnounced :
      (count : ℕ) (r : Outcome × (List AnomalyFlag × Db))
      → IsAnnounced r.1.1 (close_analysis env account count r).1
  unfolding close_analysis
  close_analysis-IsAnnounced count (raised, (found, db)) = announce_anomalies-IsAnnounced found db
  close_analysis-IsAnnounced count (returned, (found, db)) =
      announce_anomalies-IsAnnounced found
        (record db { emails = db.emails ++ (new_transactions count ∷ []) })
