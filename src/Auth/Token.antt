-- ===== src/Auth/Token.antt =====
-- `exchange_code_for_token` of services/bank_connectors/mock_bank.py, and the connector's other requests.
use nbe_financial_advisor_ba.Prelude.{ℕ, Bool, Option, none, some, List, ◌∷◌}
use nbe_financial_advisor_ba.Prelude.Text.{Text, codes}
use nbe_financial_advisor_ba.Bank.Ingest.{Entry}
use nbe_financial_advisor_ba.Bank.Accounts.{RemoteAccount}
use nbe_financial_advisor_ba.Bank.Connect.{Answer, ok, connector_error}

-- The answer of `exchange_code_for_token`.
pub record LoginToken : Type 0 where
  pub access_token : Text
  pub refresh_token : Option Text
  pub external_customer_id : Option Text
  pub email : Text
  pub phone : Text
  pub name : Option Text

-- The body of the answer of `/token`.
pub record TokenBody : Type 0 where
  pub access_token : Option Text
  pub refresh_token : Option Text
  pub external_customer_id : Option Text
  pub email : Option Text
  pub phone : Option Text
  pub name : Option Text

-- `post_token` is the request of `exchange_code_for_token`; its answer is `none` if it is no object.
pub record Connector : Type 0 where
  pub iexact : Text → Text → Bool
  pub normalize_email : Text → Text
  pub post_token : Text → Answer (Option TokenBody)
  pub fetch_accounts : Text → Answer (List RemoteAccount)
  pub fetch_transactions : Text → Text → Option (List Entry)
  pub fresh : ℕ → ℕ

-- Without one of its three texts, or with an empty one, the body is an error.
unfoldable pub token_of : (access_token email phone : Option Text) → TokenBody → Answer LoginToken
token_of (some (a ∷ access_token)) (some (e ∷ email)) (some (p ∷ phone)) body = ok (record {
  access_token = a ∷ access_token;
  refresh_token = body.refresh_token;
  external_customer_id = body.external_customer_id;
  email = e ∷ email;
  phone = p ∷ phone;
  name = body.name;
})
token_of _ _ _ body = connector_error (codes "missing access_token, email, or phone")

unfoldable pub read_token : Answer (Option TokenBody) → Answer LoginToken
read_token (connector_error reason) = connector_error reason
read_token (ok none) = connector_error (codes "missing access_token, email, or phone")
read_token (ok (some body)) = token_of body.access_token body.email body.phone body

-- `MockBankConnector.exchange_code_for_token`
unfoldable pub exchange_code_for_token : Connector → (code : Text) → Answer LoginToken
exchange_code_for_token connector code = read_token (connector.post_token code)
