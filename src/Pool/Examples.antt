-- ===== src/Pool/Examples.antt =====
-- The theorems on internal/pool at concrete pools.
use Prim.Native.String.{count}
use text.Mathlib.TextLemmas.{length-append}
use durarun_operator.Prelude.{
  ℕ, zero, suc, ◌+◌, ◌*◌, ◌≤◌, ◌<◌, pos, String, str_append, str_eq, eq_iff, ◌≡◌, refl, ap, false,
  Bool-cases, inl, inr, none, [], ◌∷◌, length, ltb, arith,
}
use durarun_operator.Pool.{PoolPod, PoolConfig, Manager, pod_idle, claim, new_manager, scale_down}
use durarun_operator.Pool.Claims.{Distinct, Outcome, claim-Outcome}
use durarun_operator.Pool.Keeps.{IsWellFormed}
use durarun_operator.Pool.History.{start, then_step, claims, Reachable-claims}
use durarun_operator.Pool.Size.{scale_down-keeps}

abbrev pod : String → PoolPod
pod id = record {
  id = id;
  state = pod_idle;
  claimed_by_job_id = "";
  created_at = pos 0;
  claimed_at = none;
  version = 1;
}

-- At least one pod and at most four.
abbrev config : PoolConfig
config = record {
  min_size = 1;
  max_size = 4;
  ratio_is_low = λ idle total. ltb (2 * idle) total;
  ratio_is_high = λ idle total. ltb total (2 * idle);
  scale_up_step = 2;
  cooldown_seconds = 60;
}

abbrev warm : Manager
warm = record {
  cfg = config;
  pods = pod "a" ∷ pod "b" ∷ pod "c" ∷ pod "d" ∷ [];
  pod_order = "a" ∷ "b" ∷ "c" ∷ "d" ∷ [];
  last_scale_time = none;
  pending_demand = 0;
  metrics = record { claim_total = 0; miss_total = 0; scale_up_total = 0; scale_down_total = 0 };
  created = 4;
}

warm-Distinct : Distinct warm.pods
warm-Distinct = ((refl, (refl, (refl, tt))), ((refl, (refl, tt)), ((refl, tt), (tt, tt))))

-- Identifiers that differ by their length.
tally : ℕ → String
tally zero = ""
tally (suc n) = str_append "x" (tally n)

count-tally : (n : ℕ) → count (tally n) ≡ n
unfolding tally
count-tally zero = refl
count-tally (suc n) = omega (arith, length-append "x" (tally n), count-tally n)

tally_unique : (i j : ℕ) → i < j → str_eq (tally i) (tally j) ≡ false
tally_unique i j l = elim (Bool-cases (str_eq (tally i) (tally j))) [
  | inl e ↦
      let same = ap count ((eq_iff (tally i) (tally j)).0 e) in
      absurd (omega (arith, same, count-tally i, count-tally j, l))
  | inr e ↦ e
]

-- A pool that was started, and from which one pod was claimed.
abbrev used : Manager
used = (claim "job" (pos 9) (new_manager tally (pos 0) config)).1

Reachable-claims_example :
    IsWellFormed tally used × Outcome "next" (pos 10) used (claim "next" (pos 10) used)
Reachable-claims_example = Reachable-claims tally tally_unique config used "next" (pos 10) (
    then_step config (new_manager tally (pos 0) config) used (start (pos 0) config)
      (claims "job" (pos 9) (new_manager tally (pos 0) config)))

claim-Outcome_example : Outcome "job" (pos 9) warm (claim "job" (pos 9) warm)
claim-Outcome_example =
    claim-Outcome "job" (pos 9) warm (record { distinct = warm-Distinct; ordered = refl })

scale_down-keeps_example :
    (1 ≤ length (scale_down (pos 9) warm).pods)
    × (4 + 1 ≤ 2 * length (scale_down (pos 9) warm).pods + 1)
scale_down-keeps_example = scale_down-keeps (pos 9) warm warm-Distinct (omega arith)

-- Four idle pods with a minimum of one: two are removed, not three.
scale_down-warm : length (scale_down (pos 9) warm).pods ≡ 2
unfolding scale_down
scale_down-warm = refl
