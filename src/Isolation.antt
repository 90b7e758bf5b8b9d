-- ===== src/Isolation.antt =====
-- internal/isolation/isolation.go: the choice of an isolation level, and what each level stands for.
--
-- `available` is the map availableLevels. The empty string, which asks for no level, is `none`.
pub mod Resolved
use durarun_operator.Prelude.{
  ℕ, String, Bool, true, false, not, ◌&&◌, Option, none, some, List, [], ◌∷◌, any, find_if, str_eq,
  if◌then◌else◌,
}

pub data Level : Type 0 where
  l0_process l1_gvisor l2_firecracker l3_docker : Level

abbrev pub level_name : Level → String
level_name l0_process = "L0"
level_name l1_gvisor = "L1"
level_name l2_firecracker = "L2"
level_name l3_docker = "L3"

-- `==` on Level
abbrev pub level_eq : Level → Level → Bool
level_eq l k = str_eq (level_name l) (level_name k)

abbrev pub all_levels : List Level
all_levels = l0_process ∷ l1_gvisor ∷ l2_firecracker ∷ l3_docker ∷ []

-- Manager.ValidateLevel, of a string that is converted to a Level.
abbrev pub validate_level : String → Bool
validate_level s = any (λ l. str_eq (level_name l) s) all_levels

pub record SandboxPolicy : Type 0 where
  pub allowed_levels : List Level
  pub default_level : Option Level
  pub force_level : Option Level

pub data LevelResult : Type 0 where
  resolved : Level → LevelResult
  unavailable not_allowed : LevelResult

-- The order in which ResolveLevel looks for another level.
abbrev pub fallback_order : List Level
fallback_order = l2_firecracker ∷ l1_gvisor ∷ l0_process ∷ l3_docker ∷ []

abbrev pub or_unavailable : Option Level → LevelResult
or_unavailable none = unavailable
or_unavailable (some l) = resolved l

-- ResolveLevel, once it is known which level is asked for and that it is allowed.
abbrev pub first_available : (Level → Bool) → Level → LevelResult
first_available available requested =
    if available requested
    then resolved requested
    else or_unavailable (find_if (λ l. not (level_eq l requested) && available l) fallback_order)

abbrev pub level_or : Option Level → Level → Level
level_or none fallback = fallback
level_or (some l) fallback = l

abbrev pub is_empty {ℓ} : {A : Type ℓ} → List A → Bool
is_empty [] = true
is_empty (x ∷ xs) = false

-- ResolveLevel under a policy that forces no level.
abbrev pub resolve_allowed : (Level → Bool) → List Level → Level → LevelResult
resolve_allowed available allowed requested =
    if not (is_empty allowed) && not (any (λ l. level_eq l requested) allowed)
    then not_allowed
    else first_available available requested

abbrev pub forced_level : (Level → Bool) → Level → LevelResult
forced_level available forced = if available forced then resolved forced else unavailable

abbrev pub resolve_policy :
    (Level → Bool) → Option Level → SandboxPolicy → Option Level → LevelResult
resolve_policy available requested policy (some forced) = forced_level available forced
resolve_policy available requested policy none =
    resolve_allowed available policy.allowed_levels
      (level_or requested (level_or policy.default_level l1_gvisor))

-- Manager.ResolveLevel
unfoldable pub resolve_level : (Level → Bool) → Option Level → Option SandboxPolicy → LevelResult
resolve_level available requested none = first_available available (level_or requested l1_gvisor)
resolve_level available requested (some policy) =
    resolve_policy available requested policy policy.force_level

pub record SecurityProfile : Type 0 where
  pub read_only_root_fs : Bool
  pub no_new_privileges : Bool
  pub seccomp_profile : String
  pub app_armor_profile : String
  pub drop_capabilities : List String

-- The startup timeout is in milliseconds.
pub record RuntimeConfig : Type 0 where
  pub level : Level
  pub runtime_class : String
  pub startup_timeout_ms : ℕ
  pub security_profile : SecurityProfile

abbrev pub hardened : String → String → SecurityProfile
hardened profile dropped = record {
  read_only_root_fs = true;
  no_new_privileges = true;
  seccomp_profile = profile;
  app_armor_profile = profile;
  drop_capabilities = dropped ∷ [];
}

-- Manager.GetRuntimeConfig
abbrev pub get_runtime_config : Level → RuntimeConfig
get_runtime_config l0_process = record {
  level = l0_process;
  runtime_class = "runc";
  startup_timeout_ms = 10;
  security_profile = record {
    read_only_root_fs = false;
    no_new_privileges = false;
    seccomp_profile = "";
    app_armor_profile = "";
    drop_capabilities = [];
  };
}
get_runtime_config l1_gvisor = record {
  level = l1_gvisor;
  runtime_class = "runsc";
  startup_timeout_ms = 80;
  security_profile = hardened "" "ALL_EXCEPT_NET_BIND_SERVICE";
}
get_runtime_config l2_firecracker = record {
  level = l2_firecracker;
  runtime_class = "firecracker-containerd";
  startup_timeout_ms = 200;
  security_profile = hardened "runtime/default" "ALL";
}
get_runtime_config l3_docker = record {
  level = l3_docker;
  runtime_class = "runc";
  startup_timeout_ms = 5000;
  security_profile = hardened "" "ALL_EXCEPT_NET_BIND_SERVICE";
}
