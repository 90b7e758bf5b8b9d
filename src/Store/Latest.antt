-- ===== src/Store/Latest.antt =====
-- GetLatestCheckpoint (internal/store/store.go).
use mathlib.Core.Bool.{Bool-set}
use mathlib.Core.Logic.Or
use mathlib.Core.List.{Mem, mem-cons, not-mem-nil}
use mathlib.Core.Path.{subst}
use durarun_operator.Prelude.{
  String, ◌≡◌, ap, ◌∙◌, Bool, true, false, not, ◌&&◌, ◌||◌, ltb, leb_ℤ, ◌==◌, Option, none, some,
  List, [], ◌∷◌, All, filter_if, arith, str_eq, eq_iff, Bool-cases, inl, inr,
}
use durarun_operator.Model.{Checkpoint}
use durarun_operator.Store.{Database, Result, ok, failed}
use durarun_operator.Store.Table.{IsFirst, order_by-IsFirst}
use durarun_operator.Store.Records.{checkpoints_of, is_later, get_latest_checkpoint}

is_later_asym : (c d : Checkpoint) → is_later c d ≡ true → is_later d c ≡ false
is_later_asym c d h = ground (arith, h)

is_later_step :
    (c d e : Checkpoint) → is_later e d ≡ false → is_later d c ≡ false → is_later e c ≡ false
is_later_step c d e h k = ground (arith, h, k)

-- The first one is not preferred to the second: its step index is lower, or it is the same and the
-- first one was not created later.
abbrev pub at_most : Checkpoint → Checkpoint → Bool
at_most q c =
    ltb q.step_index c.step_index
    || ((q.step_index == c.step_index) && leb_ℤ q.created_at c.created_at)

-- What a call for a job returned, and all checkpoints.
abbrev pub IsLatest : String → Result (Option Checkpoint) → List Checkpoint → Type 0
IsLatest job_id (failed e) rows = ⊥
IsLatest job_id (ok none) rows = All (λ q. str_eq q.job_id job_id ≡ false) rows
IsLatest job_id (ok (some c)) rows =
    Mem c rows
    × (c.job_id ≡ job_id)
    × All (λ q. (not (str_eq q.job_id job_id) || at_most q c) ≡ true) rows

kept_row :
    (job_id : String) (r : Checkpoint) (rows : List Checkpoint)
    → str_eq r.job_id job_id ≡ true
    → filter_if (λ q. str_eq q.job_id job_id) (r ∷ rows)
      ≡ r ∷ filter_if (λ q. str_eq q.job_id job_id) rows
kept_row job_id r rows e = ground (arith, e)

left_row :
    (job_id : String) (r : Checkpoint) (rows : List Checkpoint)
    → str_eq r.job_id job_id ≡ false
    → filter_if (λ q. str_eq q.job_id job_id) (r ∷ rows)
      ≡ filter_if (λ q. str_eq q.job_id job_id) rows
left_row job_id r rows e = ground (arith, e)

none_of_job :
    (job_id : String) (rows : List Checkpoint)
    → filter_if (λ c. str_eq c.job_id job_id) rows ≡ []
    → All (λ q. str_eq q.job_id job_id ≡ false) rows
none_of_job job_id [] h = tt
none_of_job job_id (r ∷ rows) h = elim (Bool-cases (str_eq r.job_id job_id)) [
  | inl e ↦ absurd (ground (arith, h, e))
  | inr e ↦ (e, none_of_job job_id rows (ground (arith, h, e)))
]

Mem-of_job :
    (job_id : String) (c : Checkpoint) (rows : List Checkpoint)
    → Mem c (filter_if (λ q. str_eq q.job_id job_id) rows)
    → Mem c rows × (str_eq c.job_id job_id ≡ true)
Mem-of_job job_id c [] m = absurd (not-mem-nil m)
Mem-of_job job_id c (r ∷ rows) m = elim (Bool-cases (str_eq r.job_id job_id)) [
  | inl e ↦
      let k = subst (Mem c) (kept_row job_id r rows e) m in
      (
        mem-cons.1 (Or.imp (λ x. x) (λ n. (Mem-of_job job_id c rows n).0) (mem-cons.0 k)),
        Or.elim (Bool-set _ _) (mem-cons.0 k) (λ x. ap (λ q. str_eq q.job_id job_id) x ∙ e)
            (λ n. (Mem-of_job job_id c rows n).1),
      )
  | inr e ↦
      let found = Mem-of_job job_id c rows (subst (Mem c) (left_row job_id r rows e) m) in
      (mem-cons.1 (Or.inr found.0), found.1)
]

all_of_job :
    (job_id : String) (c : Checkpoint) (rows : List Checkpoint)
    → All (λ q. is_later q c ≡ false) (filter_if (λ q. str_eq q.job_id job_id) rows)
    → All (λ q. (not (str_eq q.job_id job_id) || at_most q c) ≡ true) rows
all_of_job job_id c [] h = tt
all_of_job job_id c (r ∷ rows) h = elim (Bool-cases (str_eq r.job_id job_id)) [
  | inl e ↦
      let k = subst (All (λ q. is_later q c ≡ false)) (kept_row job_id r rows e) h in
      (ground (arith, k.0), all_of_job job_id c rows k.1)
  | inr e ↦
      let k = subst (All (λ q. is_later q c ≡ false)) (left_row job_id r rows e) h in
      (ground (arith, e), all_of_job job_id c rows k)
]

first-IsLatest :
    (job_id : String) (c : Option Checkpoint) (rows : List Checkpoint)
    → IsFirst is_later c (filter_if (λ q. str_eq q.job_id job_id) rows)
    → IsLatest job_id (ok c) rows
first-IsLatest job_id none rows h = none_of_job job_id rows h
first-IsLatest job_id (some c) rows h =
    let m = Mem-of_job job_id c rows h.0 in
    (m.0, (eq_iff c.job_id job_id).0 m.1, all_of_job job_id c rows h.1)

-- GetLatestCheckpoint returns no error; it returns no checkpoint only if the job has none, and
-- otherwise one of the job's checkpoints to which none of the job's checkpoints is preferred: none
-- has a greater step index, and none with the same step index was created later.
pub get_latest_checkpoint-IsLatest :
    (job_id : String) (db : Database)
    → IsLatest job_id (get_latest_checkpoint job_id db).0 db.checkpoints
unfolding get_latest_checkpoint
get_latest_checkpoint-IsLatest job_id db = first-IsLatest job_id _ db.checkpoints (
    order_by-IsFirst is_later is_later_asym (λ a b c h k. is_later_step a b c h k)
      (checkpoints_of job_id db))
