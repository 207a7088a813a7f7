-- ===== src/Mcp/Reports.antt =====
-- internal/adapters/inbound/mcp/report_tool.go: the report tool and its client of the service of
-- reports. What `http.Client` brings back of a path is a parameter: `none` where the request fails,
-- else the status and the decoded body, `none` where decoding fails.
use inventory_storage.Prelude.{
  ℕ, String, Option, none, some, List, [], ◌∷◌, ◌++◌, ◌||◌, ltb, leb, str_eq, if◌then◌else◌,
}

pub record FlowAccuracyQuery : Type 0 where
  pub from : String
  pub to : String
  pub sku : String
  pub bin_id : String
  pub granularity : String

pub data ReportsError : Type 0 where
  not_configured window_required request_failed decode_failed : ReportsError
  unexpected_status : ℕ → ReportsError

pub data ReportsResult (A : Type 0) : Type 0 where
  report : A → ReportsResult A
  report_error : ReportsError → ReportsResult A

abbrev pub Answer : Type 0 → Type 0
Answer A = Option (ℕ × Option A)

module _ {A : Type 0} where
  unfoldable decoded : Option A → ReportsResult A
  decoded none = report_error decode_failed
  decoded (some out) = report out

  unfoldable pub get_json : Answer A → ReportsResult A
  unfolding decoded
  get_json none = report_error request_failed
  get_json (some (status, body)) =
      if ltb status 200 || leb 300 status
      then report_error (unexpected_status status)
      else decoded body

-- `if value != "" { vals.Set(key, value) }`
unfoldable set_present : String → String → List (String × String)
set_present key value = if str_eq value "" then [] else (key, value) ∷ []

-- The values before `Encode`, which sorts and escapes them.
unfoldable pub query_values : FlowAccuracyQuery → List (String × String)
unfolding set_present
query_values q =
    ("from", q.from) ∷ ("to", q.to) ∷ set_present "sku" q.sku
    ++ set_present "binId" q.bin_id
    ++ set_present "granularity" q.granularity

unfoldable pub get_flow_accuracy :
    {Report : Type 0}
    → (List (String × String) → Answer Report)
    → FlowAccuracyQuery
    → ReportsResult Report
unfolding get_json query_values
get_flow_accuracy send q = get_json (send (query_values q))

unfoldable pub get_freshness : {Freshness : Type 0} → Answer Freshness → ReportsResult Freshness
unfolding get_json
get_freshness answer = get_json answer

-- `GetFlowAccuracyReportForTest`, with `none` for a nil client.
unfoldable pub get_flow_accuracy_report :
    {Report : Type 0}
    → Option (FlowAccuracyQuery → ReportsResult Report)
    → FlowAccuracyQuery
    → ReportsResult Report
get_flow_accuracy_report none q = report_error not_configured
get_flow_accuracy_report (some client) q =
    if str_eq q.from "" || str_eq q.to "" then report_error window_required else client q
