-- ===== src/Store/Pools.antt =====
-- The statements on the pods of the pools (internal/store/store.go).
use durarun_operator.Prelude.{
  ℕ, suc, ℤ, ltb_ℤ, String, Bool, ◌&&◌, not, Option, none, some, List, [], ◌∷◌, ◌++◌, any,
  filter_if, find_if, count_if, length, str_eq,
}
use durarun_operator.Store.{Database, PoolPod, Statement, ok, insert_when}
use durarun_operator.Store.Table.{update_by, order_by}

abbrev pub new_pool_pod : String → String → String → String → ℤ → PoolPod
new_pool_pod id pool_id runtime_class image now = record {
  id = id;
  pool_id = pool_id;
  state = "idle";
  claimed_by_job = "";
  runtime_class = runtime_class;
  image = image;
  version = 1;
  created_at = now;
  claimed_at = none;
}

-- Store.CreatePoolPod
abbrev pub create_pool_pod : String → String → String → String → ℤ → Statement PoolPod
create_pool_pod id pool_id runtime_class image now db =
    insert_when (any (λ p. str_eq p.id id) db.pool_pods)
      (any (λ p. str_eq p.id pool_id) db.sandbox_pools)
      (λ d. (
        ok (new_pool_pod id pool_id runtime_class image now),
        record d {
          pool_pods = d.pool_pods ++ new_pool_pod id pool_id runtime_class image now ∷ [];
        },
      ))
      db

abbrev pub is_idle_in : String → PoolPod → Bool
is_idle_in pool_id p = str_eq p.state "idle" && str_eq p.pool_id pool_id

abbrev pub claimed_pod : String → ℤ → PoolPod → PoolPod
claimed_pod job_id now p = record p {
  state = "claimed";
  claimed_by_job = job_id;
  version = suc p.version;
  claimed_at = some now;
}

-- Store.ClaimPoolPod; which idle pod the query returns is left open, and here it is the first.
unfoldable pub claim_pool_pod : String → String → ℤ → Statement (Option PoolPod)
claim_pool_pod pool_id job_id now db = elim (find_if (is_idle_in pool_id) db.pool_pods) [
  | none ↦ (ok none, db)
  | some p ↦ (
    ok (some (claimed_pod job_id now p)),
    record db { pool_pods = update_by (λ q. q.id) p.id (claimed_pod job_id now) db.pool_pods },
  )
]

-- Store.ReleasePoolPod
unfoldable pub release_pool_pod : String → Statement Unit
release_pool_pod id db = (
  ok tt,
  record db {
    pool_pods =
        update_by (λ q. q.id) id (λ p. record p { state = "terminating"; version = suc p.version })
          db.pool_pods;
  },
)

abbrev pub pods_in : String → Database → List PoolPod
pods_in pool_id db = filter_if (λ p. str_eq p.pool_id pool_id) db.pool_pods

-- Store.ListPoolPods: ORDER BY created_at
unfoldable pub list_pool_pods : String → Statement (List PoolPod)
unfolding order_by
list_pool_pods pool_id db =
    (ok (order_by (λ p q. ltb_ℤ p.created_at q.created_at) (pods_in pool_id db)), db)

-- Store.DeletePoolPod
unfoldable pub delete_pool_pod : String → Statement Unit
delete_pool_pod id db =
    (ok tt, record db { pool_pods = filter_if (λ p. not (str_eq p.id id)) db.pool_pods })

-- Store.CountPoolPods: the total, and the counts of the groups `idle` and `claimed`.
unfoldable pub count_pool_pods : String → Statement (ℕ × ℕ × ℕ)
count_pool_pods pool_id db =
    let pods = pods_in pool_id db in
    (
      ok (
        length pods,
        count_if (λ p. str_eq p.state "idle") pods,
        count_if (λ p. str_eq p.state "claimed") pods,
      ),
      db,
    )
