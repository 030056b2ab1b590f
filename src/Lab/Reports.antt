-- ===== src/Lab/Reports.antt =====
-- The reports of tools/chaos_lab/runner.py as JSON values. The times that a run takes are left out.
use helix_grid.Prelude.{List, Option, none, some, Bool, true, false, length}
use helix_grid.Prelude.Json.{
  Json, null, boolean, number, text, array, object, Entries, end, entry, items, entries,
}
use helix_grid.Chaos.Types.{Action}
use helix_grid.Chaos.Snapshot.{action_json, natural}
use helix_grid.Lab.Runner.{
  StepRecord, ReplayFailure, ReplayReport, report_ok, accepted, rejected, rejection_types,
}

-- `StepRecord.as_dict`
abbrev pub step_json : StepRecord → Json
step_json r = object (
    entry "index" (natural r.index) (
      entry "action" (action_json r.action) (
        entry "accepted" (boolean r.accepted) (
          entry "error_type" (text r.error_type) (
            entry "error" (text r.error) (
              entry "digest" (text r.digest) (
                entry "event_count" (natural r.event_count)
                  (entry "active_leases" (natural r.active_leases) end))))))))

abbrev optional_action : Option Action → Json
optional_action none = null
optional_action (some a) = action_json a

-- `ReplayFailure.as_dict`
abbrev pub failure_json : ReplayFailure → Json
failure_json f = object (
    entry "index" (number f.index) (
      entry "action" (optional_action f.action) (
        entry "error_type" (text f.error_type) (
          entry "error" (text f.error)
            (entry "invariant_code" (text f.invariant_code) (entry "snapshot" f.snapshot end))))))

abbrev optional_failure : Option ReplayFailure → Json
optional_failure none = null
optional_failure (some f) = failure_json f

abbrev records_entry : Bool → List StepRecord → Entries
records_entry true records = entry "records" (array (items step_json records)) end
records_entry false records = end

-- `ReplayReport.as_dict` without the event log
unfoldable pub report_json : Bool → ReplayReport → Json
report_json include_records r = object (
    entry "seed" (number r.seed) (
      entry "ok" (boolean (report_ok r)) (
        entry "steps" (natural (length r.records)) (
          entry "accepted" (natural (accepted r)) (
            entry "rejected" (natural (rejected r)) (
              entry "rejection_types" (object (entries natural (rejection_types r))) (
                entry "final_digest" (text r.final_digest) (
                  entry "final_snapshot" r.final_snapshot (
                    entry "failure" (optional_failure r.failure)
                      (records_entry include_records r.records))))))))))
