-- ===== src/Wal/Manifest.antt =====
-- wal/reader.go: the summary of the completed steps. Saving and loading it as JSON is left out.
pub mod Completed
use durarun_operator.Prelude.{
  ℕ, ℤ, pos, eq_ℤ, String, Bool, true, false, ◌&&◌, Option, none, some, List, [], ◌∷◌, ◌++◌, ltb,
  str_eq, map, any, length, is_some, if◌then◌else◌,
}
use durarun_operator.Wal.{
  Record, RecordType, type_step_begin, type_step_end, type_step_retry, type_step_timeout,
  type_job_cancelled, other_type, Directory, WalResult, map_result, read_all,
}

pub record CompletedStep : Type 0 where
  pub step_id : String
  pub seq : ℕ
  pub output_ref : String

pub record Manifest : Type 0 where
  pub schema_version : ℕ
  pub last_completed : String
  pub completed_steps : List CompletedStep
  pub file_count : ℕ
  pub total_records : ℕ

-- stepInfo
pub record StepInfo : Type 0 where
  pub begin_seq : ℕ
  pub end_seq : ℕ
  pub exit : Option ℤ
  pub output : String

-- The map `steps` and the list `order`.
pub record Scan : Type 0 where
  pub steps : String → Option StepInfo
  pub order : List String

abbrev pub no_steps : Scan
no_steps = record { steps = λ id. none; order = [] }

unfoldable pub put_step : String → StepInfo → (String → Option StepInfo) → String → Option StepInfo
put_step id s steps x = if str_eq x id then some s else steps x

end_step : Option StepInfo → Record → Scan → Scan
unfolding put_step
end_step none r scan = scan
end_step (some s) r scan = record scan {
  steps =
      put_step r.step_id (record s { end_seq = r.seq; exit = r.exit; output = r.output_ref })
        scan.steps;
}

-- One round of the loop over the records.
observe_type : RecordType → Record → Scan → Scan
unfolding end_step
observe_type type_step_begin r scan = record {
  steps =
      put_step r.step_id (record { begin_seq = r.seq; end_seq = 0; exit = none; output = "" })
        scan.steps;
  order = if is_some (scan.steps r.step_id) then scan.order else scan.order ++ r.step_id ∷ [];
}
observe_type type_step_end r scan = end_step (scan.steps r.step_id) r scan
observe_type _ r scan = scan

unfoldable pub scan_records : List Record → Scan → Scan
unfolding observe_type
scan_records [] scan = scan
scan_records (r ∷ rs) scan = scan_records rs (observe_type r.type r scan)

abbrev pub is_zero : Option ℤ → Bool
is_zero none = false
is_zero (some n) = eq_ℤ n (pos 0)

-- `s.endSeq > 0 && s.exit != nil && *s.exit == 0`
abbrev pub has_completed : Option StepInfo → Bool
has_completed none = false
has_completed (some s) = ltb 0 s.end_seq && is_zero s.exit

completed_step : String → Option StepInfo → CompletedStep
completed_step id none = record { step_id = id; seq = 0; output_ref = "" }
completed_step id (some s) = record { step_id = id; seq = s.end_seq; output_ref = s.output }

-- The loop over `order`.
unfoldable pub completed_steps : (String → Option StepInfo) → List String → List CompletedStep
unfolding completed_step
completed_steps steps [] = []
completed_steps steps (id ∷ ids) =
    let rest = completed_steps steps ids in
    if has_completed (steps id) then completed_step id (steps id) ∷ rest else rest

unfoldable pub last_step : String → List CompletedStep → String
last_step id [] = id
last_step id (c ∷ cs) = last_step c.step_id cs

unfoldable pub manifest_of : Directory → List Record → Manifest
unfolding scan_records completed_steps last_step
manifest_of dir rs =
    let scan = scan_records rs no_steps in
    let completed = completed_steps scan.steps scan.order in
    record {
      schema_version = 1;
      last_completed = last_step "" completed;
      completed_steps = completed;
      file_count = length dir;
      total_records = length rs;
    }

-- Reader.BuildManifest
unfoldable pub build_manifest : Directory → WalResult Manifest
unfolding manifest_of
build_manifest dir = map_result (manifest_of dir) (read_all dir)

-- Reader.CompletedStepIDs
unfoldable pub completed_step_ids : Directory → WalResult (List String)
unfolding build_manifest
completed_step_ids dir =
    map_result (λ m. map (λ c. c.step_id) m.completed_steps) (build_manifest dir)

-- Reader.LastCompletedStep
unfoldable pub last_completed_step : Directory → WalResult String
unfolding build_manifest
last_completed_step dir = map_result (λ m. m.last_completed) (build_manifest dir)

-- Reader.IsStepCompleted
unfoldable pub is_step_completed : Directory → String → WalResult Bool
unfolding completed_step_ids
is_step_completed dir id = map_result (λ ids. any (λ x. str_eq x id) ids) (completed_step_ids dir)
