-- ===== src/Lib.antt =====
-- The backend of a personal-finance adviser, with the mock bank that it links to.
--
-- The repository has three services. mock-bank-oauth (FastAPI) logs a bank customer in by OAuth 2
-- and a one-time password and issues tokens; mock-bank-sync (FastAPI) owns the bank's customers,
-- accounts and transactions; core, config and services (Django with Celery) are the adviser itself.
-- This library models the parts that carry the program's own decisions, each as functions on
-- explicit state, and proves what makes them correct.
--
-- Oauth models mock-bank-oauth/app. Oauth.Store is store.py: the three tables as dictionaries, and
-- one function for each of its functions, which the module's lock makes atomic. Oauth.Routes is
-- routes_authorize.py, routes_login.py, routes_token.py and oauth_server.py: a handler takes the
-- store and returns its reply and the store after it. Oauth.Requests runs sequences of requests. The
-- clock, the random source, the customer directory's reply and the mail server's outcome are
-- arguments; `urlencode` and the signing of tokens are fields of `Env`. Times are in microseconds.
--
-- Statements models core/tasks/statements.py and advance_statement_to of core/views/statements.py.
-- Statements.Phases has the finalizers of the two phases, Statements.Pipeline the task with its
-- loop, its exception handlers and its event. `Db` holds the rows that the pipeline writes. The
-- answers of the AI service are a function of the round; Celery's refusal of a retry is the
-- parameter `Celery`. The loop of one run has four rounds of fuel, since at most three phases lie
-- between two statuses; all runs together have 481, since each of two phases polls at most 240
-- times. Nothing else is assumed to write the statement's row between two runs of its task.
--
-- Categories models core/models/categories: Categories.Model the seeded table and resolve_category,
-- Categories.Keywords guess_category_from_merchant. `str.lower` is written out on ASCII texts and is
-- a parameter on others.
--
-- Bank models the ledger of linked accounts. Bank.Model is the row of
-- core/models/aggregations/transaction.py with is_duplicate, and current_balance of
-- core/models/profile/bank_account.py; Bank.Ingest and Bank.Analysis are ingest_synced_transactions
-- of core/tasks/bank_sync.py, which uses Categories. Bank.Accounts is
-- services/bank_connectors/sync.py, Bank.Connect the two views of core/views/bank_connections.py
-- with the rows of core/models/profile/bank_connection.py, and Bank.Webhook is
-- core/views/webhooks.py. Bank.Ledger, Bank.Delivery, Bank.Balance, Bank.AnyOrder, Bank.OneRow,
-- Bank.Closed, Bank.StateOnce and Bank.Pushed prove what the parts guarantee. Amounts are integers
-- of hundredths. Primary keys are random, so `.first()` without an order gives the first row of the
-- list that stands for the table. Column lengths, failures of the database or of Redis and two runs
-- that interleave are not modelled.
--
-- Documents models the other operations of core/views/statements.py: Documents.Upload is
-- create_statement_from_upload with the validation of core/serializers/statements.py,
-- Documents.Deletion the single and the bulk deletion, Documents.Approval the approval of a
-- statement's transactions, which uses Categories and the ledger of Bank; Documents.Answered and
-- Documents.Approved prove what an approval commits. The keys of the object store are records of
-- their parts; the permission check for the consent is left out.
--
-- Budgets models core/views/budgets.py with core/serializers/budgets.py and the rows of
-- core/models/budgets: Budgets.Plan is `BudgetView.post` and `patch` with `_apply_allocations`,
-- Budgets.Goals the savings goal with `DashboardGoalView.patch`, Budgets.Windows `_resolve_window`
-- and `_window_totals` on the ordinals of Budgets.Calendar. A plan carries its allocations, in
-- hundredths of a percent and of the currency. Nothing makes a request one transaction, so the model
-- keeps what was written before an exception. The loop of `_resolve_window` that wraps a month runs
-- on one round of fuel: the month is at most three below the current one. Percentages of progress
-- are floats and are left out.
--
-- Auth models the login as a bank customer of core/views/auth.py: Auth.States is
-- services/bank_login_states.py on an interface to Redis, whose laws are what its documentation says
-- of `getdel`, Auth.Token is exchange_code_for_token of services/bank_connectors/mock_bank.py, and
-- Auth.Login the two views, which use Bank. A callback runs to its end before the next one begins.
-- The bank's answers, `normalize_email` and the new ids are arguments. Auth.Sessions has the
-- e-mailed links of services/link_tickets.py, the password reset, the verification of an e-mail and
-- the logout of other devices; `check_token` and the password hash are arguments. Sign-up, login,
-- refresh and single logout are left to simplejwt and Django.
--
-- Chat models the reply to a message: Chat.Stream is AIServiceClient.stream_chat of
-- services/ai_service/ai_client.py on the lines of a response, and Chat.Relay is generate_chat_reply
-- of core/tasks/conversations.py with the posting of a message of core/views/conversations.py.
-- `json.loads` is an argument; Chat.Transcript describes a reply without loops and store. A
-- generator runs while it is consumed; the model reads all of its envelopes first, which the
-- consumer cannot tell.
--
-- Investments models core/views/investment_scenarios.py with
-- core/serializers/investment_scenarios.py and the rows of core/models/recommendation:
-- Investments.Plan is _recalculate_saved_payload and the serializer that checks its result,
-- Investments.Edits the change and the removal of an allocation, Investments.Purchases the purchase,
-- Investments.Plans the change and the deletion of a plan and the part of MessageWidgetView of
-- core/views/conversations.py that saves a plan, whose validate_saved_payload is left to its result,
-- and Investments.Holdings the writes of core/views/investment_holdings.py. Investments.Requests
-- runs sequences of all of them. Investments.Decimal is Python's `Decimal` with its context of 28
-- digits; the searches for the number of digits have 40 and 60 rounds of fuel, since the products
-- have at most 44 digits and the smallest quotients 42 places. A JSON number of more than fifteen
-- digits, which a float would not keep, is not modelled.
--
-- Mockbank models mock-bank-sync/app, the ledger that the bank links read: Mockbank.Model is
-- models.py with the serializers, Mockbank.Access is auth.py, routes_accounts.py and
-- routes_internal.py, and Mockbank.Simulate is routes_simulate.py. Random choices, the JWT library
-- and `uuid.UUID` are arguments; the delivery of a push is the backend's Bank.Webhook, and its
-- outcome is only reported.
--
-- Strings that are only compared, such as identifiers and tokens, are numbers; other texts are lists
-- of code points. HTML, e-mail texts, HTTP transport, the database engine and the AI service are not
-- modelled: they are arguments where the code reads their answers.
pub mod Prelude
pub mod Oauth
pub mod Statements
pub mod Categories
pub mod Bank
pub mod Documents
pub mod Budgets
pub mod Auth
pub mod Chat
pub mod Investments
pub mod Mockbank
