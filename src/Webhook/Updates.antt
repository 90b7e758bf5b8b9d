-- ===== src/Webhook/Updates.antt =====
-- What a chain of accepted updates keeps (internal/webhook/immutability.go).
use durarun_operator.Prelude.{
  ◌≤ℤ◌, String, ◌≡◌, refl, sym, ap, ◌∙◌, true, Option, none, some, List, [], ◌∷◌, eq_iff, All,
  arith,
}
use durarun_operator.Api.{AgentJob}
use durarun_operator.Webhook.{same_strings, deep_equal, validate_immutable_fields}

same_strings_sound : (xs ys : List String) → same_strings xs ys ≡ true → xs ≡ ys
unfolding same_strings
same_strings_sound [] [] h = refl
same_strings_sound [] (y ∷ ys) h = ground arith
same_strings_sound (x ∷ xs) [] h = ground arith
same_strings_sound (x ∷ xs) (y ∷ ys) h = ground (arith, eq_iff x y, same_strings_sound xs ys)

deep_equal_sound : (a b : Option (List String)) → deep_equal a b ≡ true → a ≡ b
unfolding deep_equal
deep_equal_sound none none h = refl
deep_equal_sound none (some ys) h = ground arith
deep_equal_sound (some xs) none h = ground arith
deep_equal_sound (some xs) (some ys) h = ap some (same_strings_sound xs ys h)

-- The fields that an update must not change, and the one that it must not lower.
pub record Keeps (old new : AgentJob) : Type 0 where
  pub image : new.spec.runtime.image ≡ old.spec.runtime.image
  pub command : new.spec.runtime.command ≡ old.spec.runtime.command
  pub max_attempts : old.spec.execution.max_attempts ≤ℤ new.spec.execution.max_attempts

validate-Keeps : (old new : AgentJob) → validate_immutable_fields old new ≡ [] → Keeps old new
unfolding validate_immutable_fields
validate-Keeps old new h = record {
  image = ground (arith, eq_iff old.spec.runtime.image new.spec.runtime.image);
  command = sym (deep_equal_sound old.spec.runtime.command new.spec.runtime.command (ground arith));
  max_attempts = ground arith;
}

-- Each job is an accepted update of the one before.
abbrev pub Accepted : AgentJob → List AgentJob → Type 0
Accepted old [] = Unit
Accepted old (new ∷ rest) = (validate_immutable_fields old new ≡ []) × Accepted new rest

Keeps-trans : (a b c : AgentJob) → Keeps a b → Keeps b c → Keeps a c
Keeps-trans a b c h k = record {
  image = k.image ∙ h.image;
  command = k.command ∙ h.command;
  max_attempts = omega (arith, h.max_attempts, k.max_attempts);
}

All-Keeps : (a b : AgentJob) (js : List AgentJob) → Keeps a b → All (Keeps b) js → All (Keeps a) js
All-Keeps a b [] h k = tt
All-Keeps a b (j ∷ js) h k = (Keeps-trans a b j h k.0, All-Keeps a b js h k.1)

-- However often a job is updated, if every update is accepted, its image and its command stay as
-- they were and its maximum of attempts is never below the first one.
pub validate_immutable_fields-Keeps :
    (old : AgentJob) (updates : List AgentJob) → Accepted old updates → All (Keeps old) updates
validate_immutable_fields-Keeps old [] h = tt
validate_immutable_fields-Keeps old (new ∷ rest) h =
    let one = validate-Keeps old new h.0 in
    (one, All-Keeps old new rest one (validate_immutable_fields-Keeps new rest h.1))
