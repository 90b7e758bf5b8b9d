-- ===== src/Server/Policies.antt =====
-- The policies that internal/api/server.go keeps in memory, one for each namespace.
--
-- The map `policies` is a list of its entries, each under its own namespace. A request is what the
-- handler reads of it, `none` for a body that is not JSON.
use durarun_operator.Prelude.{
  ℤ, String, ◌≡◌, false, Option, none, some, List, ◌∷◌, find_if, str_eq, eq_iff, eq_refl,
  if◌then◌else◌, is_some, arith,
}
use durarun_operator.Server.{Reply, success, problem}

pub record PolicyEntry : Type 0 where
  pub name : String
  pub namespace : String
  pub allowed_levels : List String
  pub default_level : String
  pub max_concurrent_jobs : ℤ
  pub created_at : ℤ

-- createPolicyRequest
pub record CreatePolicyRequest : Type 0 where
  pub name : String
  pub namespace : String
  pub allowed_levels : List String
  pub default_level : String
  pub max_concurrent_jobs : ℤ

-- policies[namespace]
abbrev pub policy_of : String → List PolicyEntry → Option PolicyEntry
policy_of namespace policies = find_if (λ p. str_eq p.namespace namespace) policies

abbrev pub reply_policy : Option PolicyEntry → Reply PolicyEntry
reply_policy none = problem 404
reply_policy (some p) = success 200 p

-- Server.handleGetPolicy
unfoldable pub handle_get_policy : String → List PolicyEntry → Reply PolicyEntry
handle_get_policy namespace policies = reply_policy (policy_of namespace policies)

abbrev pub new_policy : CreatePolicyRequest → ℤ → PolicyEntry
new_policy req now = record {
  name = req.name;
  namespace = req.namespace;
  allowed_levels = req.allowed_levels;
  default_level = req.default_level;
  max_concurrent_jobs = req.max_concurrent_jobs;
  created_at = now;
}

-- Server.handleCreatePolicy: the reply and the map after it.
unfoldable pub handle_create_policy :
    Option CreatePolicyRequest → ℤ → List PolicyEntry → Reply PolicyEntry × List PolicyEntry
handle_create_policy none now policies = (problem 400, policies)
handle_create_policy (some req) now policies =
    if str_eq req.name ""
    then (problem 400, policies)
    else if str_eq req.namespace ""
    then (problem 400, policies)
    else if is_some (policy_of req.namespace policies)
    then (problem 409, policies)
    else (success 201 (new_policy req now), new_policy req now ∷ policies)

-- A policy that was created is the one that its namespace has from then on: a second creation for
-- the namespace is answered with 409 and changes nothing.
pub handle_create_policy_twice :
    (req again : CreatePolicyRequest) (now later : ℤ) (policies : List PolicyEntry)
    → str_eq req.name "" ≡ false
    → str_eq req.namespace "" ≡ false
    → str_eq again.name "" ≡ false
    → policy_of req.namespace policies ≡ none
    → again.namespace ≡ req.namespace
    → let after = (handle_create_policy (some req) now policies).1 in
      (handle_create_policy (some again) later after ≡ (problem 409, after))
      × (handle_get_policy req.namespace after ≡ success 200 (new_policy req now))
unfolding handle_create_policy handle_get_policy
handle_create_policy_twice req again now later policies n s m fresh same =
    ground
      (arith, n, s, m, fresh, same, eq_refl req.namespace, eq_iff again.namespace req.namespace)
