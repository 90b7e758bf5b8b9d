-- ===== src/Pool.antt =====
-- internal/pool/pool.go: the manager of warm pods.
--
-- The map `pods` is a list of its values, each under its own id, and what the code counts over the
-- map does not depend on its order. `uuid n` is the n-th identifier that github.com/google/uuid
-- makes, and `created` says how many there were. A size that the configuration gives is a natural
-- number. `ratio_is_low` and `ratio_is_high` are the comparisons of idle / total in float64 with the
-- two thresholds. The pool's name, image and class, which every pod repeats, and latencies are left
-- out.
pub mod Claims
pub mod Size
pub mod Keeps
pub mod History
mod Examples
use durarun_operator.Prelude.{
  ℕ, zero, suc, ◌+◌, ◌-◌, ◌*◌, ℤ, pos, ◌-ℤ◌, leb_ℤ, String, Bool, true, false, not, ◌&&◌, Option,
  none, some, List, [], ◌∷◌, ◌++◌, map, length, count_if, filter_if, find_if, ltb, leb, str_eq,
  if◌then◌else◌, is_some, any,
}

pub data PodState : Type 0 where
  pod_idle pod_claimed pod_terminating : PodState

pub record PoolPod : Type 0 where
  pub id : String
  pub state : PodState
  pub claimed_by_job_id : String
  pub created_at : ℤ
  pub claimed_at : Option ℤ
  pub version : ℕ

pub record PoolConfig : Type 0 where
  pub min_size : ℕ
  pub max_size : ℕ
  pub ratio_is_low : ℕ → ℕ → Bool
  pub ratio_is_high : ℕ → ℕ → Bool
  pub scale_up_step : ℕ
  pub cooldown_seconds : ℕ

pub record PoolStatus : Type 0 where
  pub total_pods : ℕ
  pub idle_pods : ℕ
  pub claimed_pods : ℕ
  pub last_scale_time : Option ℤ
  pub ready : Bool

pub record PoolMetrics : Type 0 where
  pub claim_total : ℕ
  pub miss_total : ℕ
  pub scale_up_total : ℕ
  pub scale_down_total : ℕ

pub record Manager : Type 0 where
  pub cfg : PoolConfig
  pub pods : List PoolPod
  pub pod_order : List String
  pub last_scale_time : Option ℤ
  pub pending_demand : ℕ
  pub metrics : PoolMetrics
  pub created : ℕ

pub data PoolError : Type 0 where
  pool_exhausted pod_not_found : PoolError

abbrev pub is_idle : PoolPod → Bool
is_idle p = elim p.state [ pod_idle ↦ true | pod_claimed ↦ false | pod_terminating ↦ false ]

abbrev pub is_claimed : PoolPod → Bool
is_claimed p = elim p.state [ pod_idle ↦ false | pod_claimed ↦ true | pod_terminating ↦ false ]

abbrev pub is_terminating : PoolPod → Bool
is_terminating p = elim p.state [ pod_idle ↦ false | pod_claimed ↦ false | pod_terminating ↦ true ]

-- m.pods[id], also GetPod
abbrev pub get_pod : String → List PoolPod → Option PoolPod
get_pod id pods = find_if (λ p. str_eq p.id id) pods

-- delete(m.pods, id)
abbrev pub delete_pod : String → List PoolPod → List PoolPod
delete_pod id pods = filter_if (λ p. not (str_eq p.id id)) pods

-- What is written through a *PoolPod.
abbrev pub put_pod : PoolPod → List PoolPod → List PoolPod
put_pod q pods = map (λ p. if str_eq p.id q.id then q else p) pods

idle_or : Option PoolPod → Option PoolPod → Option PoolPod
idle_or none rest = rest
idle_or (some p) rest = if is_idle p then some p else rest

-- The loop of Claim.
unfoldable pub first_idle : List PoolPod → List String → Option PoolPod
unfolding idle_or
first_idle pods [] = none
first_idle pods (id ∷ ids) = let rest = first_idle pods ids in idle_or (get_pod id pods) rest

abbrev pub claimed_pod : String → ℤ → PoolPod → PoolPod
claimed_pod job now p = record p {
  state = pod_claimed;
  claimed_by_job_id = job;
  claimed_at = some now;
  version = suc p.version;
}

claim_found : String → ℤ → Manager → Option PoolPod → Option PoolPod × Manager
claim_found job now m none = (
  none,
  record m {
    metrics = record m.metrics {
      claim_total = suc m.metrics.claim_total;
      miss_total = suc m.metrics.miss_total;
    };
  },
)
claim_found job now m (some p) = (
  some (claimed_pod job now p),
  record m {
    pods = put_pod (claimed_pod job now p) m.pods;
    metrics = record m.metrics { claim_total = suc m.metrics.claim_total };
  },
)

-- Manager.Claim; `none` is ErrPoolExhausted.
unfoldable pub claim : String → ℤ → Manager → Option PoolPod × Manager
unfolding claim_found first_idle
claim job now m = claim_found job now m (first_idle m.pods m.pod_order)

module _ (uuid : ℕ → String) where
  unfoldable pub create_pod : ℤ → Manager → Manager
  create_pod now m = record m {
    pods =
        m.pods
        ++ record {
          id = uuid m.created;
          state = pod_idle;
          claimed_by_job_id = "";
          created_at = now;
          claimed_at = none;
          version = 1;
        }
          ∷ [];
    pod_order = m.pod_order ++ uuid m.created ∷ [];
    created = suc m.created;
  }

  unfoldable pub create_pods : ℕ → ℤ → Manager → Manager
  unfolding create_pod
  create_pods zero now m = m
  create_pods (suc n) now m = create_pods n now (create_pod now m)

  unfoldable pub new_manager : ℤ → PoolConfig → Manager
  unfolding create_pods
  new_manager now cfg = create_pods cfg.min_size now (record {
    cfg = cfg;
    pods = [];
    pod_order = [];
    last_scale_time = none;
    pending_demand = 0;
    metrics = record { claim_total = 0; miss_total = 0; scale_up_total = 0; scale_down_total = 0 };
    created = 0;
  })

  -- Manager.Release
  unfoldable pub release : String → ℤ → Manager → Option PoolError × Manager
  unfolding create_pod
  release id now m =
      if is_some (get_pod id m.pods)
      then (
        none,
        create_pod now (record m {
          pods = delete_pod id m.pods;
          pod_order = filter_if (λ x. not (str_eq x id)) m.pod_order;
        }),
      )
      else (some pod_not_found, m)

  -- The loops that create pods while there is room.
  unfoldable pub grow : ℕ → ℤ → Manager → Manager
  unfolding create_pod
  grow zero now m = m
  grow (suc n) now m =
      let more = grow n now (create_pod now m) in
      if ltb (length m.pods) m.cfg.max_size then more else m

-- Reconcile up to its first count: the pods in state Terminating are dropped.
unfoldable pub drop_terminating : Manager → Manager
drop_terminating m =
    let term_ids =
      filter_if (λ id. any (λ p. str_eq p.id id && is_terminating p) m.pods) m.pod_order in
    let gone : String → Bool = λ id. any (λ t. str_eq t id) term_ids in
    record m {
      pods = filter_if (λ p. not (gone p.id)) m.pods;
      pod_order = filter_if (λ id. not (gone id)) m.pod_order;
    }

-- The pods that are left, how many were removed, and the new order.
abbrev pub Sweep : Type 0
Sweep = List PoolPod × ℕ × List String

-- The loop that scales down.
unfoldable pub sweep : ℕ → List String → List PoolPod → ℕ → Sweep
sweep min_size [] pods removed = (pods, removed, [])
sweep min_size (id ∷ ids) pods removed =
    let fewer = sweep min_size ids (delete_pod id pods) (suc removed) in
    let kept = sweep min_size ids pods removed in
    if any (λ p. str_eq p.id id && is_idle p) pods && ltb min_size (length pods - removed)
    then fewer
    else (kept.0, kept.1, id ∷ kept.2)

abbrev pub cooldown_ok : ℤ → Manager → Option ℤ → Bool
cooldown_ok now m none = true
cooldown_ok now m (some t) = leb_ℤ (pos (m.cfg.cooldown_seconds * 1000000000)) (now -ℤ t)

abbrev pub scaled_up : ℤ → Manager → Manager
scaled_up now m = record m {
  last_scale_time = some now;
  metrics = record m.metrics { scale_up_total = suc m.metrics.scale_up_total };
}

-- What the loop that scales down leaves behind.
unfoldable pub scale_down : ℤ → Manager → Manager
unfolding sweep
scale_down now m =
    let (pods, removed, order) = sweep m.cfg.min_size m.pod_order m.pods 0 in
    let swept : Manager = record m { pods = pods; pod_order = order } in
    if ltb 0 removed
    then record swept {
      last_scale_time = some now;
      metrics = record m.metrics { scale_down_total = suc m.metrics.scale_down_total };
    }
    else swept

module _ (uuid : ℕ → String) where
  unfoldable pub scale_up : ℤ → Manager → Manager
  unfolding grow
  scale_up now m =
      let grown = grow uuid m.cfg.scale_up_step now m in
      if ltb (length m.pods) (length grown.pods) then scaled_up now grown else grown

  -- The counts are those from before; both tests may succeed.
  unfoldable pub rebalance : ℤ → Manager → Manager
  unfolding scale_up scale_down
  rebalance now m =
      let total = length m.pods in
      let idle = count_if is_idle m.pods in
      let cool = cooldown_ok now m m.last_scale_time in
      let m1 : Manager = if m.cfg.ratio_is_low idle total && cool then scale_up now m else m in
      if ltb 0 total
      then if m.cfg.ratio_is_high idle total && ltb m.cfg.min_size total && cool
        then scale_down now m1
        else m1
      else m

  unfoldable pub burst_or_rebalance : ℤ → Manager → Manager
  unfolding grow rebalance
  burst_or_rebalance now m =
      let idle = count_if is_idle m.pods in
      if ltb idle m.pending_demand
      then scaled_up now (grow uuid (m.pending_demand - idle) now m)
      else rebalance now m

  -- Manager.Reconcile
  unfoldable pub reconcile : ℤ → Manager → Manager
  unfolding burst_or_rebalance drop_terminating
  reconcile now m = burst_or_rebalance now (drop_terminating m)

-- Manager.Status
unfoldable pub pool_status : Manager → PoolStatus
pool_status m = record {
  total_pods = length m.pods;
  idle_pods = count_if is_idle m.pods;
  claimed_pods = count_if is_claimed m.pods;
  last_scale_time = m.last_scale_time;
  ready = ltb 0 (count_if is_idle m.pods);
}
