-- ===== src/Bank/LinkTests.antt =====
-- Runs of links on concrete tables.
use nbe_financial_advisor_ba.Prelude.{◌+◌, ◌≡◌, refl, none, some, List, [], ◌∷◌, arith}
use nbe_financial_advisor_ba.Prelude.Text.{codes, text_eq}
use nbe_financial_advisor_ba.Bank.Accounts.{
  pending_otp, Connection, manual, BankAccount, RemoteAccount, Tables, apply_synced_accounts,
  linked, delete_shadows, keep_accounts, land_accounts, update_or_create, synced_row, backfill,
}
use nbe_financial_advisor_ba.Bank.Connect.{
  ok, connector_error, Token, invalid_oauth_state, bank_connection_failed, integrity_error, Bank,
  mark_failed, on_token, on_connection, get_connection, callback,
}
use nbe_financial_advisor_ba.Bank.OneRow.{IsOnePer, count_rows}
use nbe_financial_advisor_ba.Bank.StateOnce.{
  Request, start_link, call_back, run, matched_state_refused,
}
use nbe_financial_advisor_ba.Bank.Webhook.{
  Push, accepted, Feed, first_account, is_fed, customer_connections, queue_ingestion, after_fetch,
  discover, on_account, receive_push,
}

abbrev connection : Connection
connection = record {
  id = 8;
  user = 1;
  provider_slug = codes "mock_bank";
  status = pending_otp;
  external_customer_id = none;
  access_token = none;
  refresh_token = none;
  oauth_state = some 77;
  error_reason = none;
  linked_at = none;
}

abbrev hand_made : BankAccount
hand_made = record {
  id = 4;
  user = 1;
  bank_name = codes "NBE";
  account_type = none;
  account_number = codes "123";
  currency = codes "EGP";
  link_type = manual;
  connection = none;
  external_account_id = none;
}

abbrev remote : RemoteAccount
remote = record {
  external_account_id = codes "acc-1";
  bank_name = codes "NBE";
  account_type = none;
  account_number = codes "123";
  currency = none;
}

abbrev tables : Tables
tables = record {
  connections = connection ∷ [];
  accounts = hand_made ∷ [];
  transactions = [];
  queue = [];
}

abbrev offline : Bank
offline = record {
  iexact = text_eq;
  exchange_code_for_token = λ _. connector_error (codes "timeout");
  fetch_accounts = λ _. connector_error (codes "timeout");
  fetch_transactions = λ _ _. none;
  fresh = λ n. n + 50;
}

abbrev token : Token
token = record {
  access_token = codes "token";
  refresh_token = none;
  external_customer_id = some (codes "c-1");
}

abbrev online : Bank
online = record offline {
  exchange_code_for_token = λ _. ok token;
  fetch_accounts = λ _. ok (remote ∷ remote ∷ []);
}

one_per : IsOnePer tables.accounts
unfolding count_rows
one_per c e = ground arith

failed_reply : (callback offline 5 8 1 (codes "code") 77 tables).0 ≡ bank_connection_failed
unfolding callback on_connection get_connection on_token mark_failed
failed_reply = refl

connection_found : get_connection 8 1 tables.connections ≡ some connection
unfolding get_connection
connection_found = refl

not_taken : ¬ ((callback offline 5 8 1 (codes "code") 77 tables).0 ≡ integrity_error)
not_taken h = absurd (ground (arith, failed_reply, h))

-- Another user starts a link, and the callback is sent again.
abbrev others : List Request
others = start_link 9 2 (codes "mock_bank") 78 ∷ call_back online 6 8 1 (codes "code") 77 ∷ []

matched_state_refused_example :
    (let db' : Tables = run others (callback offline 5 8 1 (codes "code") 77 tables).1 in
      callback online 6 8 1 (codes "code") 77 db' ≡ (invalid_oauth_state, db'))
unfolding text_eq
matched_state_refused_example =
    matched_state_refused offline online 5 6 8 1 (codes "code") (codes "code") 77 77 connection
      tables others connection_found refl not_taken (refl, (refl, tt))

abbrev linked_connection : Connection
linked_connection = record connection {
  status = linked;
  external_customer_id = some (codes "c-1");
  access_token = some (codes "token");
  oauth_state = none;
}

abbrev feed : Feed
feed = record {
  iexact = text_eq;
  fetch_accounts = λ _. ok (remote ∷ []);
  fetch_transactions = λ _ _. none;
  fresh = λ n. n + 50;
}

abbrev push : Push
push = record {
  provider_slug = codes "mock_bank";
  external_account_id = codes "acc-1";
  external_customer_id = codes "c-1";
  transactions = [];
}

abbrev linked_tables : Tables
linked_tables = record tables { connections = linked_connection ∷ [] }

-- The account is not known before: it is found at the bank.
push_accepted : (receive_push feed push linked_tables).0 ≡ accepted
unfolding receive_push on_account first_account is_fed customer_connections discover after_fetch
    queue_ingestion apply_synced_accounts delete_shadows keep_accounts land_accounts
    update_or_create synced_row backfill text_eq
push_accepted = refl
