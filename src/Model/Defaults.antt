-- ===== src/Model/Defaults.antt =====
-- A spec that was validated is valid as it stands (internal/model/model.go).
use durarun_operator.Prelude.{
  ℤ, pos, ltb_ℤ, leb_ℤ, ◌||◌, String, ◌≡◌, refl, ap, ◌∙◌, Bool, true, false, str_eq, if◌then◌else◌,
  arith, Bool-cases, inl, inr,
}
use durarun_operator.Model.{JobSpec, ResourceSpec, IsolationSpec, StepTrackingSpec}
use durarun_operator.Model.Validation.{
  Validated, invalid, valid, validate_job_spec, job_spec_defaults, or_default,
}

-- A default that needs no default itself.
module _ {A : Type 0} (missing : A → Bool) (fallback : A) where
  filled : A → A
  filled x = if missing x then fallback else x

  filled_stays : (x : A) → missing fallback ≡ false → filled (filled x) ≡ filled x
  unfolding filled
  filled_stays x h = elim (Bool-cases (missing x)) [
    | inl e ↦ rw (e, if◌then◌else◌) (rw (h, if◌then◌else◌) refl)
    | inr e ↦ rw (e, if◌then◌else◌) (rw (e, if◌then◌else◌) refl)
  ]

text_stays :
    (fallback s : String)
    → str_eq fallback "" ≡ false
    → or_default fallback (or_default fallback s) ≡ or_default fallback s
unfolding filled
text_stays fallback s h = filled_stays (λ x. str_eq x "") fallback s h

-- The spec from the parts that have defaults.
abbrev with_parts :
    JobSpec → ℤ → String → ResourceSpec → IsolationSpec → StepTrackingSpec → String → JobSpec
with_parts spec n timeout resources isolation tracking pool = record spec {
  max_retries = n;
  timeout = timeout;
  resources = resources;
  isolation = isolation;
  step_tracking = tracking;
  pool_ref = pool;
}

defaults_stay :
    (spec : JobSpec) → job_spec_defaults (job_spec_defaults spec) ≡ job_spec_defaults spec
unfolding filled
defaults_stay spec =
    let d = job_spec_defaults spec in
    let e = job_spec_defaults d in
    ap (λ x. with_parts spec x e.timeout e.resources e.isolation e.step_tracking e.pool_ref)
      (filled_stays (λ n. ltb_ℤ n (pos 0)) (pos 0) spec.max_retries refl)
    ∙ ap (λ x. with_parts spec d.max_retries x e.resources e.isolation e.step_tracking e.pool_ref)
        (text_stays "5m" spec.timeout refl)
    ∙ ap
        (λ x.
          with_parts spec d.max_retries d.timeout
            (record { cpu_limit = x; memory_limit = e.resources.memory_limit }) e.isolation
            e.step_tracking e.pool_ref)
        (text_stays "1" spec.resources.cpu_limit refl)
    ∙ ap
        (λ x.
          with_parts spec d.max_retries d.timeout
            (record { cpu_limit = d.resources.cpu_limit; memory_limit = x }) e.isolation
            e.step_tracking e.pool_ref)
        (text_stays "512m" spec.resources.memory_limit refl)
    ∙ ap
        (λ x.
          with_parts spec d.max_retries d.timeout d.resources (record { level = x }) e.step_tracking
            e.pool_ref)
        (text_stays "L1GVisor" spec.isolation.level refl)
    ∙ ap (λ x. with_parts spec d.max_retries d.timeout d.resources d.isolation x e.pool_ref)
        (filled_stays (λ t. str_eq t.protocol "") (record { enabled = true; protocol = "env" })
          spec.step_tracking refl)
    ∙ ap (λ x. with_parts spec d.max_retries d.timeout d.resources d.isolation d.step_tracking x)
        (text_stays "default" spec.pool_ref refl)

-- What ValidateJobSpec says of a spec, and of the spec that it leaves.
abbrev pub IsValidated : JobSpec → Validated → Type 0
IsValidated spec (invalid e) =
    (str_eq spec.name "" || str_eq spec.image "" || str_eq spec.prompt "") ≡ true
IsValidated spec (valid s) =
    ((str_eq spec.name "" || str_eq spec.image "" || str_eq spec.prompt "") ≡ false)
    × (validate_job_spec s ≡ valid s)
    × (leb_ℤ (pos 0) s.max_retries ≡ true)

accepted :
    (spec : JobSpec)
    → str_eq spec.name "" ≡ false
    → str_eq spec.image "" ≡ false
    → str_eq spec.prompt "" ≡ false
    → validate_job_spec spec ≡ valid (job_spec_defaults spec)
accepted spec a b c = rw (a, b, c, if◌then◌else◌) refl

-- ValidateJobSpec rejects a spec exactly if its name, image or prompt is empty, and the spec that it
-- leaves otherwise passes again unchanged, with a number of retries that is not negative.
pub validate_job_spec-IsValidated : (spec : JobSpec) → IsValidated spec (validate_job_spec spec)
validate_job_spec-IsValidated spec = elim (Bool-cases (str_eq spec.name "")) [
  | inl a ↦ rw (a, if◌then◌else◌) (ground (arith, a))
  | inr a ↦ elim (Bool-cases (str_eq spec.image "")) [
    | inl b ↦ rw (a, b, if◌then◌else◌) (ground (arith, a, b))
    | inr b ↦ elim (Bool-cases (str_eq spec.prompt "")) [
      | inl c ↦ rw (a, b, c, if◌then◌else◌) (ground (arith, a, b, c))
      | inr c ↦
          rw (a, b, c, if◌then◌else◌)
            (
              ground (arith, a, b, c),
              accepted (job_spec_defaults spec) a b c ∙ ap valid (defaults_stay spec),
              ground arith,
            )
    ]
  ]
]
