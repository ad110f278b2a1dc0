-- ===== src/Bank/Tests.antt =====
-- Runs on concrete ledgers.
use nbe_financial_advisor_ba.Prelude.{ℕ, ◌+◌, ◌≡◌, refl, Option, none, some, List, [], ◌∷◌, ◌++◌}
use nbe_financial_advisor_ba.Prelude.Text.{Text, codes, text_eq}
use nbe_financial_advisor_ba.Prelude.Int.{ℤ, pos, ◌-ℤ◌}
use nbe_financial_advisor_ba.Categories.Model.{category_seed_data}
use nbe_financial_advisor_ba.Bank.Model.{Transaction, current_balance}
use nbe_financial_advisor_ba.Bank.Balance.{replay}
use nbe_financial_advisor_ba.Bank.AnyOrder.{insert_newest, newest_first, current_balance-replay}
use nbe_financial_advisor_ba.Bank.Ingest.{
  Entry, Anomaly, Event, Account, Db, returned, raised, Environment,
}
use nbe_financial_advisor_ba.Bank.Analysis.{synced_event, ingest_synced_transactions}
use nbe_financial_advisor_ba.Bank.Delivery.{
  stack, ingest_announces, unreadable_date_aborts, redelivery_adds_nothing,
}

abbrev unchanged : Text → Text
unchanged s = s

abbrev env : Environment
env = record {
  unicode_lower = unchanged;
  categories = category_seed_data;
  stamp = λ n. (n + 100, n + 5000);
  flag_id = λ n. n + 700;
  run_post_ingestion_analysis = λ _ _ _. none;
}

abbrev anomaly : Anomaly
anomaly = record {
  category = some (codes "food");
  month = some (codes "2026-08");
  amount = some (pos 900);
  reason = none;
}

-- The AI service finds an anomaly in each month.
abbrev alarmed : Environment
alarmed = record env { run_post_ingestion_analysis = λ _ _ _. some (anomaly ∷ []) }

abbrev account : Account
account = record { id = 3; user = 1; currency = codes "EGP" }

abbrev entry : (date : Option ℕ) → ℕ → Option ℤ → Entry
entry date cents balance = record {
  transaction_date = date;
  merchant_raw = some (codes "Uber");
  amount = pos cents;
  transaction_type = some (codes "debit");
  currency = none;
  balance = balance;
}

abbrev ride : Entry
ride = entry (some 20260801) 4500 none

abbrev stated : Entry
stated = entry (some 20260731) 1000 (some (pos 90000))

abbrev unreadable : Entry
unreadable = entry none 100 none

abbrev empty_db : Db
empty_db = record { transactions = []; anomaly_flags = []; events = []; emails = [] }

abbrev row : (date created_at cents : ℕ) → Option ℤ → Transaction
row date created_at cents balance = record {
  id = created_at;
  user = 1;
  account = 3;
  statement = none;
  transaction_date = date;
  merchant_raw = none;
  merchant_normalized = none;
  category = none;
  amount = pos cents;
  currency = codes "EGP";
  source = codes "synced";
  balance = balance;
  transaction_type = some (codes "debit");
  extra_fields = none;
  created_at = created_at;
}

-- The newest row stands last, and an older stated balance first.
abbrev ledger : List Transaction
ledger =
    row 20260729 11 70 (some (pos 1000))
    ∷ row 20260731 8 1000 (some (pos 90000))
    ∷ row 20260730 10 70 none
    ∷ row 20260801 9 4500 none
    ∷ []

current_balance-replay_example : current_balance ledger ≡ replay (newest_first ledger)
current_balance-replay_example =
    current_balance-replay ledger
      ((refl, (refl, (refl, tt))), ((refl, (refl, tt)), ((refl, tt), (tt, tt))))

ledger_balance : replay (newest_first ledger) ≡ pos 85500
unfolding ◌-ℤ◌ text_eq newest_first insert_newest
ledger_balance = refl

ingest_announces_example :
    (new : List Transaction) × (more : List Event) × ((ingest_synced_transactions alarmed
        (some account)
        (ride ∷ stated ∷ [])
        empty_db).1.transactions
      ≡ stack new [])
    × ((ingest_synced_transactions alarmed (some account) (ride ∷ stated ∷ []) empty_db).1.events
        ≡ ([] ++ (synced_event alarmed account new ∷ [])) ++ more)
ingest_announces_example =
    ingest_announces alarmed account (ride ∷ stated ∷ []) empty_db
      ((20260801, refl), ((20260731, refl), tt))

unreadable_date_aborts_example :
    ingest_synced_transactions env
      (some account)
      ((ride ∷ []) ++ (unreadable ∷ stated ∷ []))
      empty_db
    ≡ (
      raised,
      record empty_db {
        transactions =
            (ingest_synced_transactions env (some account) (ride ∷ []) empty_db).1.transactions;
      },
    )
unreadable_date_aborts_example =
    unreadable_date_aborts env account (ride ∷ []) unreadable (stated ∷ []) empty_db
      ((20260801, refl), tt) refl

redelivery_adds_nothing_example :
    (let db' : Db = (ingest_synced_transactions env (some account) (ride ∷ []) empty_db).1 in
      ingest_synced_transactions alarmed (some account) (ride ∷ []) db'
      ≡ (returned, record db' { events = db'.events ++ (synced_event alarmed account [] ∷ []) }))
redelivery_adds_nothing_example =
    redelivery_adds_nothing env alarmed account (ride ∷ []) empty_db ((20260801, refl), tt)
