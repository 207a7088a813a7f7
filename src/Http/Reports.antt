-- ===== src/Http/Reports.antt =====
-- internal/adapters/inbound/http/reports_handler.go: the handlers of the reports service. What
-- `time.Parse` makes of a parameter is a parameter, and the store answers `none` where it fails.
use inventory_storage.Prelude.{String, Option, none, some, List, str_eq, not, ◌&&◌, if◌then◌else◌}
use inventory_storage.Shared.Events.{Time}
use inventory_storage.Analytics.Store.{ReportQuery, Row}
use inventory_storage.Http.Errors.{bad_request, internal_server_error}
use inventory_storage.Http.Response.{Response, write_problem}

-- What a report handler writes.
pub data ReportResponse : Type 0 where
  rejected : Response → ReportResponse
  report : List Row → ReportResponse
  freshness : Time → ReportResponse
  health : ReportResponse

-- `writeReportBadRequest`
unfoldable pub report_bad_request : ReportResponse
unfolding write_problem
report_bad_request = rejected (
    write_problem bad_request (record {
      slug = "invalid-report-query";
      title = "The report query is malformed or missing a required parameter";
    }))

-- `writeReportInternal`
unfoldable pub report_internal : ReportResponse
unfolding write_problem
report_internal = rejected (
    write_problem internal_server_error
      (record { slug = "report-store-error"; title = "The report could not be served" }))

-- The parameters of the query.
pub record ReportParams : Type 0 where
  pub start : String
  pub end_time : String
  pub sku : String
  pub bin_id : String
  pub granularity : String

-- `parseRequiredTime`
unfoldable pub parse_required_time : (String → Option Time) → String → Option Time
parse_required_time parse raw = if str_eq raw "" then none else parse raw

unfoldable pub report_rows : Option (List Row) → ReportResponse
unfolding report_internal
report_rows none = report_internal
report_rows (some rows) = report rows

-- The rest of `GetFlowAccuracy`, once both times are parsed.
unfoldable pub query_between :
    (ReportQuery → Option (List Row)) → ReportParams → Option Time → Option Time → ReportResponse
unfolding report_bad_request report_rows
query_between store p none end_time = report_bad_request
query_between store p (some start) none = report_bad_request
query_between store p (some start) (some end_time) =
    if not (str_eq p.granularity "") && not (str_eq p.granularity "hour")
    then report_bad_request
    else report_rows
        (store (record { start = start; end_time = end_time; sku = p.sku; bin_id = p.bin_id }))

-- `GetFlowAccuracy`
unfoldable pub get_flow_accuracy :
    (String → Option Time) → (ReportQuery → Option (List Row)) → ReportParams → ReportResponse
unfolding parse_required_time query_between
get_flow_accuracy parse store p =
    query_between store p (parse_required_time parse p.start) (parse_required_time parse p.end_time)

-- `GetFreshness`
unfoldable pub get_freshness : Option Time → ReportResponse
unfolding report_internal
get_freshness none = report_internal
get_freshness (some lag) = freshness lag

-- `GetReportsHealthz`
abbrev pub get_reports_healthz : ReportResponse
get_reports_healthz = health
