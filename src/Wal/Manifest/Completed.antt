-- ===== src/Wal/Manifest/Completed.antt =====
-- Which steps the summary calls completed (wal/reader.go).
use mathlib.Core.Path.{subst}
use durarun_operator.Prelude.{
  ℕ, suc, String, ◌≡◌, refl, ap, ◌∙◌, Bool, true, false, ◌&&◌, ◌||◌, Option, none, some, List, [],
  ◌∷◌, ◌++◌, arith, ltb, str_eq, eq_iff, map, any, any-append, is_some, if◌then◌else◌, All,
  Option-cases, inl, inr,
}
use durarun_operator.Wal.{
  Record, RecordType, type_step_begin, type_step_end, type_step_retry, type_step_timeout,
  type_job_cancelled, other_type, Directory, WalResult, ok, err, map_result, read_all, and_then,
  or_records, read_files, check_sequence,
}
use durarun_operator.Wal.Manifest.{
  StepInfo, Scan, no_steps, put_step, end_step, observe_type, scan_records, is_zero, has_completed,
  completed_step, completed_steps, manifest_of, build_manifest, completed_step_ids,
  is_step_completed,
}

-- The record begins the step, or ends it.
abbrev pub begins : String → Record → Bool
begins id r = elim r.type [ type_step_begin ↦ str_eq r.step_id id | _ ↦ false ]

abbrev pub ends : String → Record → Bool
ends id r = elim r.type [ type_step_end ↦ str_eq r.step_id id | _ ↦ false ]

-- Whether the last record that begins or ends the step ends it with exit code 0; `before` is the
-- answer for the records before these.
abbrev pub ends_well : String → Bool → List Record → Bool
ends_well id before [] = before
ends_well id before (r ∷ rs) =
    ends_well id (if begins id r then false else if ends id r then is_zero r.exit else before) rs

-- The step has been begun, and its last begin or end is an end with exit code 0.
abbrev pub is_completed_in : String → List Record → Bool
is_completed_in id rs = any (begins id) rs && ends_well id false rs

-- What the scan knows of a step: whether it was begun, and whether it has completed.
record Knows (id : String) (begun well : Bool) (scan : Scan) : Type 0 where
  begun_eq : is_some (scan.steps id) ≡ begun
  completed_eq : has_completed (scan.steps id) ≡ (begun && well)
  order_eq : any (λ x. str_eq x id) scan.order ≡ begun

end_step-Knows :
    (id : String) (b k : Bool) (r : Record) (scan : Scan) (s : Option StepInfo)
    → scan.steps r.step_id ≡ s
    → ltb 0 r.seq ≡ true
    → Knows id b k scan
    → Knows id b (if str_eq r.step_id id then is_zero r.exit else k) (end_step s r scan)
unfolding end_step put_step
end_step-Knows id b k r scan none e n h = record {
  begun_eq = h.begun_eq;
  completed_eq = ground (arith, h.begun_eq, h.completed_eq, e, eq_iff r.step_id id);
  order_eq = h.order_eq;
}
end_step-Knows id b k r scan (some s) e n h = record {
  begun_eq = ground (arith, h.begun_eq, e, eq_iff r.step_id id, eq_iff id r.step_id);
  completed_eq =
      ground (arith, h.begun_eq, h.completed_eq, e, eq_iff r.step_id id, eq_iff id r.step_id);
  order_eq = h.order_eq;
}

begin_order :
    (id : String) (b : Bool) (x : String) (scan : Scan)
    → {k : Bool} → Knows id b k scan
    → any (λ y. str_eq y id) (if is_some (scan.steps x) then scan.order else scan.order ++ x ∷ [])
      ≡ (str_eq x id || b)
begin_order id b x scan h =
    ground (
      arith,
      h.begun_eq,
      h.order_eq,
      eq_iff x id,
      any-append (λ y. str_eq y id) scan.order (x ∷ []),
    )

observe-Knows :
    (id : String) (b k : Bool) (r : Record) (type : RecordType) (scan : Scan)
    → r.type ≡ type
    → ltb 0 r.seq ≡ true
    → Knows id b k scan
    → Knows id
        (begins id r || b)
        (if begins id r then false else if ends id r then is_zero r.exit else k)
        (observe_type type r scan)
unfolding observe_type put_step
observe-Knows id b k r type_step_begin scan t n h =
    let same = eq_iff r.step_id id in
    let other = eq_iff id r.step_id in
    rw t record {
      begun_eq = ground (arith, h.begun_eq, same, other);
      completed_eq = ground (arith, h.completed_eq, h.begun_eq, same, other);
      order_eq = begin_order id b r.step_id scan h;
    }
observe-Knows id b k r type_step_end scan t n h =
    let no_begin : begins id r ≡ false = rw t refl in
    let an_end : ends id r ≡ str_eq r.step_id id = rw t refl in
    rw (no_begin, an_end) (end_step-Knows id b k r scan (scan.steps r.step_id) refl n h)
observe-Knows id b k r type_step_retry scan t n h = rw t h
observe-Knows id b k r type_step_timeout scan t n h = rw t h
observe-Knows id b k r type_job_cancelled scan t n h = rw t h
observe-Knows id b k r (other_type s) scan t n h = rw t h

scan_records-Knows :
    (id : String) (rs : List Record) (b k : Bool) (scan : Scan)
    → All (λ r. ltb 0 r.seq ≡ true) rs
    → Knows id b k scan
    → Knows id (b || any (begins id) rs) (ends_well id k rs) (scan_records rs scan)
unfolding scan_records
scan_records-Knows id [] b k scan p h = subst (λ x. Knows id x k scan) (ground arith) h
scan_records-Knows id (r ∷ rs) b k scan p h =
    let later =
      scan_records-Knows id rs (begins id r || b)
        (if begins id r then false else if ends id r then is_zero r.exit else k)
        (observe_type r.type r scan) p.1 (observe-Knows id b k r r.type scan refl p.0 h) in
    subst (λ x. Knows id x (ends_well id k (r ∷ rs)) (scan_records (r ∷ rs) scan)) (ground arith)
      later

completed_step-id : (id : String) (s : Option StepInfo) → (completed_step id s).step_id ≡ id
unfolding completed_step
completed_step-id id none = refl
completed_step-id id (some s) = refl

-- The completed steps among those that were begun.
completed_steps-any :
    (id : String) (steps : String → Option StepInfo) (order : List String)
    → any (λ x. str_eq x id) (map (λ c. c.step_id) (completed_steps steps order))
      ≡ (any (λ x. str_eq x id) order && has_completed (steps id))
unfolding completed_steps
completed_steps-any id steps [] = refl
completed_steps-any id steps (x ∷ xs) =
    ground (arith, completed_steps-any id steps xs, completed_step-id x (steps x), eq_iff x id)

positive :
    (n : ℕ) (rs : List Record) → check_sequence (suc n) rs ≡ none → All (λ r. ltb 0 r.seq ≡ true) rs
unfolding check_sequence
positive n [] h = tt
positive n (r ∷ rs) h = (ground arith, positive (suc n) rs (ground arith))

scanned_eq :
    (id : String) (dir : Directory) (rs : List Record)
    → check_sequence 1 rs ≡ none
    → any (λ x. str_eq x id) (map (λ c. c.step_id) (manifest_of dir rs).completed_steps)
      ≡ is_completed_in id rs
unfolding manifest_of
scanned_eq id dir rs h =
    let scan = scan_records rs no_steps in
    let known =
      scan_records-Knows id rs false false no_steps (positive 0 rs h)
        (record { begun_eq = refl; completed_eq = refl; order_eq = refl }) in
    completed_steps-any id scan.steps scan.order
    ∙ ground (arith, known.order_eq, known.completed_eq)

by_result :
    (id : String) (dir : Directory) (files : WalResult (List Record))
    → let all = and_then files λ rs. or_records (check_sequence 1 rs) rs in
      map_result
        (λ ids. any (λ x. str_eq x id) ids)
        (map_result
          (λ m. map (λ c. c.step_id) m.completed_steps)
          (map_result (manifest_of dir) all))
      ≡ map_result (is_completed_in id) all
by_result id dir (err e) = refl
by_result id dir (ok rs) = elim (Option-cases (check_sequence 1 rs)) [
  | inl e ↦ rw e (ap ok (scanned_eq id dir rs e))
  | inr (x, e) ↦ rw e refl
]

-- IsStepCompleted fails exactly as ReadAll does. Otherwise it says whether, among the records of the
-- log, some record begins the step and the last one that begins or ends it ends it with exit code 0.
pub is_step_completed_eq :
    (dir : Directory) (id : String)
    → is_step_completed dir id ≡ map_result (is_completed_in id) (read_all dir)
unfolding is_step_completed completed_step_ids build_manifest read_all
is_step_completed_eq dir id = by_result id dir (read_files dir)
