-- ===== src/Investments/Plans.antt =====
-- A saved plan as a whole: `SavedInvestmentScenarioDetailView` of core/views/investment_scenarios.py
-- with `SavedInvestmentScenarioUpdateSerializer`, and the part of `MessageWidgetView.patch` of
-- core/views/conversations.py that saves the plan of a message.
use nbe_financial_advisor_ba.Prelude.{
  ℕ, Bool, true, false, not, Option, none, some, List, [], ◌∷◌, ◌++◌, ◌&&◌, ◌||◌, leb, ◌==◌,
  is_some, length, if◌then◌else◌,
}
use nbe_financial_advisor_ba.Prelude.Text.{Text, codes, strip}
use nbe_financial_advisor_ba.Investments.Model.{Payload, Status, saved, Scenario, Tables}
use nbe_financial_advisor_ba.Investments.Edits.{
  Reply, ok, no_content, not_found, invalid, find_scenario, save_scenario, delete_scenario,
}

-- `SavedInvestmentScenarioUpdateSerializer`
pub record Update : Type 0 where
  pub title : Option Text
  pub status : Option Status

-- A title is stripped, not blank, and of at most 120 characters.
abbrev pub is_valid_title : Option Text → Bool
is_valid_title none = true
is_valid_title (some title) = not (length (strip title) == 0) && leb (length (strip title)) 120

abbrev pub is_plan_update : Update → Bool
is_plan_update u = (is_some u.title || is_some u.status) && is_valid_title u.title

abbrev pub titled : Option Text → Scenario → Scenario
titled none s = s
titled (some title) s = record s { title = strip title }

abbrev pub in_status : Option Status → Scenario → Scenario
in_status none s = s
in_status (some status) s = record s { status = status }

unfoldable pub update_found : Option Update → Tables → Option Scenario → Reply × Tables
update_found body tables none = (not_found, tables)
update_found none tables (some s) = (invalid, tables)
update_found (some u) tables (some s) =
    if is_plan_update u
    then (
      ok,
      record tables {
        scenarios = save_scenario (in_status u.status (titled u.title s)) tables.scenarios;
      },
    )
    else (invalid, tables)

-- `SavedInvestmentScenarioDetailView.patch`; `none` is a body without the right types.
unfoldable pub patch_scenario : (user id : ℕ) → Option Update → Tables → Reply × Tables
patch_scenario user id body tables =
    update_found body tables (find_scenario user id tables.scenarios)

unfoldable pub destroy_found : Tables → Option Scenario → Reply × Tables
destroy_found tables none = (not_found, tables)
destroy_found tables (some s) = (no_content, delete_scenario s tables)

-- `destroy` of `SavedInvestmentScenarioDetailView`
unfoldable pub destroy_scenario : (user id : ℕ) → Tables → Reply × Tables
destroy_scenario user id tables = destroy_found tables (find_scenario user id tables.scenarios)

abbrev pub is_of : (message : ℕ) → Option ℕ → Bool
is_of message none = false
is_of message (some m) = m == message

-- `.filter(source_message=message).first()`
unfoldable pub find_saved : (message : ℕ) → List Scenario → Option Scenario
find_saved message [] = none
find_saved message (s ∷ rest) =
    if is_of message s.source_message then some s else find_saved message rest

unfoldable pub save_found :
    (fresh user message : ℕ) → Payload → Tables → Option Scenario → Reply × Tables
save_found fresh user message p tables none = (
  ok,
  record tables {
    scenarios =
        tables.scenarios
        ++ (record {
          id = fresh;
          user = user;
          source_message = some message;
          title = codes "Investment scenario";
          status = saved;
          payload = p;
        }
            ∷ []);
  },
)
save_found fresh user message p tables (some s) =
    (ok, record tables { scenarios = save_scenario (record s { payload = p }) tables.scenarios })

-- `MessageWidgetView.patch` on a message of the user with an investment plan; the payload is the one
-- that validate_saved_payload returns, `none` one that it refuses.
unfoldable pub save_widget : (fresh user message : ℕ) → Option Payload → Tables → Reply × Tables
save_widget fresh user message none tables = (invalid, tables)
save_widget fresh user message (some p) tables =
    save_found fresh user message p tables (find_saved message tables.scenarios)
