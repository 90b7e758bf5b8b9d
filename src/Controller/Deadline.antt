-- ===== src/Controller/Deadline.antt =====
-- internal/controller/deadline.go and ttl.go: the clock tests of a job.
use durarun_operator.Prelude.{
  ℕ, ◌*◌, ◌≤◌, ℤ, pos, ltb_ℤ, leb_ℤ, eq_ℤ, -ℤ_positive, +ℤ-sub, ◌+ℤ◌, ◌-ℤ◌, ◌<ℤ◌, seconds_int64,
  seconds_int64_exact, ◌≡◌, refl, ◌↔◌, ◌⊎◌, inl, inr, Bool-cases, Bool, true, false, ◌||◌, Option,
  none, some, arith, if◌then◌else◌,
}
use durarun_operator.State.{is_job_terminal}
use durarun_operator.Api.{AgentJob, AgentAttempt}

pub data DeadlineLevel : Type 0 where
  job_level attempt_level : DeadlineLevel

-- Whether `now` is after `start + length`; false when either is nil.
abbrev pub passed : Option ℤ → Option ℤ → ℤ → Bool
passed (some start) (some length) now = ltb_ℤ (start +ℤ length) now
passed (some start) none now = false
passed none length now = false

abbrev pub seconds_of : Option ℤ → Option ℤ
seconds_of none = none
seconds_of (some s) = some (seconds_int64 s)

abbrev pub attempt_deadline : Option AgentAttempt → Option ℤ
attempt_deadline none = none
attempt_deadline (some a) = a.spec.deadline

abbrev pub after_deadline : Option ℤ → ℤ → Bool
after_deadline none now = false
after_deadline (some d) now = ltb_ℤ d now

-- CheckDeadline; `none` is (false, "").
unfoldable pub check_deadline : AgentJob → Option AgentAttempt → ℤ → Option DeadlineLevel
check_deadline job attempt now =
    if passed job.status.start_time (seconds_of job.spec.execution.active_deadline_seconds) now
    then some job_level
    else if passed job.status.start_time job.spec.execution.timeout now
    then some job_level
    else if after_deadline (attempt_deadline attempt) now
    then some attempt_level
    else none

-- Time.Sub: the difference, and the largest Duration where the difference is greater. The smallest
-- Duration is not reached, since the difference is positive here.
abbrev pub max_duration : ℤ
max_duration = pos 9223372036854775807

abbrev pub sub_time : ℤ → ℤ → ℤ
sub_time t u = if ltb_ℤ max_duration (t -ℤ u) then max_duration else t -ℤ u

ttl_at : ℤ → ℤ → Bool × ℤ
ttl_at expiry now =
    if ltb_ℤ expiry now || eq_ℤ expiry now then (true, pos 0) else (false, sub_time expiry now)

ttl_waits :
    (expiry now : ℤ) → leb_ℤ expiry now ≡ false → ttl_at expiry now ≡ (false, sub_time expiry now)
unfolding ttl_at
ttl_waits expiry now h = ground arith

-- The wait ends at the expiry; where the wait is the largest Duration, it ends there or earlier.
abbrev pub IsWait : ℤ → ℤ → ℤ → Type 0
IsWait expiry now wait =
    (pos 0 <ℤ wait)
    × ((now +ℤ wait ≡ expiry)
        ⊎ ((wait ≡ max_duration) × (ltb_ℤ max_duration (expiry -ℤ now) ≡ true)))

sub_time-IsWait :
    (expiry now : ℤ) → leb_ℤ expiry now ≡ false → IsWait expiry now (sub_time expiry now)
sub_time-IsWait expiry now h = elim (Bool-cases (ltb_ℤ max_duration (expiry -ℤ now))) [
  | inl e ↦ rw (e, if◌then◌else◌) (ground arith, inr (refl, refl))
  | inr e ↦ rw (e, if◌then◌else◌) (-ℤ_positive now expiry (ground arith), inl (+ℤ-sub now expiry))
]

ttl_expiry :
    (expiry now : ℤ)
    → ((ttl_at expiry now).0 ≡ leb_ℤ expiry now)
      × (leb_ℤ expiry now ≡ false → IsWait expiry now (ttl_at expiry now).1)
unfolding ttl_at
ttl_expiry expiry now =
    (ground arith, λ h. rw (ttl_waits expiry now h) (sub_time-IsWait expiry now h))

ttl_test : Option ℤ → Option ℤ → ℤ → Bool × ℤ
unfolding ttl_at
ttl_test none c now = (false, pos 0)
ttl_test (some ttl) none now = (false, pos 0)
ttl_test (some ttl) (some c) now = ttl_at (c +ℤ seconds_int64 ttl) now

-- CheckTTL: delete now, or the time to wait.
unfoldable pub check_ttl : AgentJob → ℤ → Bool × ℤ
unfolding ttl_test
check_ttl job now =
    if is_job_terminal job.status.conditions
    then ttl_test job.spec.execution.ttl_seconds_after_finished job.status.completion_time now
    else (false, pos 0)

-- The deadline of a job has passed when it has started and one of its two limits, counted from the
-- start, lies before `now`.
abbrev pub job_deadline_passed : AgentJob → ℤ → Bool
job_deadline_passed job now =
    passed job.status.start_time (seconds_of job.spec.execution.active_deadline_seconds) now
    || passed job.status.start_time job.spec.execution.timeout now

-- CheckDeadline names the job exactly when one of the job's two deadlines has passed, the attempt
-- exactly when only the attempt's own deadline has, and nothing exactly when none has.
pub check_deadline_iff :
    (job : AgentJob) (attempt : Option AgentAttempt) (now : ℤ)
    → ((check_deadline job attempt now ≡ some job_level) ↔ (job_deadline_passed job now ≡ true))
      × ((check_deadline job attempt now ≡ some attempt_level) ↔ (
          (job_deadline_passed job now ≡ false)
          × (after_deadline (attempt_deadline attempt) now ≡ true)))
      × ((check_deadline job attempt now ≡ none) ↔ (
          (job_deadline_passed job now ≡ false)
          × (after_deadline (attempt_deadline attempt) now ≡ false)))
unfolding check_deadline
check_deadline_iff job attempt now = (
  (λ h. ground arith, λ h. ground arith),
  (λ h. (ground arith, ground arith), λ h. ground (arith, h.0, h.1)),
  (λ h. (ground arith, ground arith), λ h. ground (arith, h.0, h.1)),
)

-- For a terminal job that was completed at `c` and keeps `ttl` seconds, CheckTTL deletes exactly
-- when `now` has reached `c` plus that time, and otherwise waits a positive time: one that ends
-- then, or, when that is further away than the largest Duration, the largest Duration. The seconds
-- are such that they fit an int64 in nanoseconds.
pub check_ttl_exact :
    (job : AgentJob) (now c : ℤ) (ttl : ℕ)
    → is_job_terminal job.status.conditions ≡ true
    → job.spec.execution.ttl_seconds_after_finished ≡ some (pos ttl)
    → job.status.completion_time ≡ some c
    → ttl ≤ 9223372036
    → let expiry = c +ℤ pos (ttl * 1000000000) in
      ((check_ttl job now).0 ≡ leb_ℤ expiry now)
      × (leb_ℤ expiry now ≡ false → IsWait expiry now (check_ttl job now).1)
unfolding check_ttl
check_ttl_exact job now c ttl terminal t e fits =
    rw (terminal, t, e, seconds_int64_exact ttl fits) (ttl_expiry (c +ℤ pos (ttl * 1000000000)) now)
