-- ===== src/Store/Policies.antt =====
-- The statements on the tables of pools and of policies (internal/store/store.go).
use durarun_operator.Prelude.{
  ℤ, pos, ltb_ℤ, String, Bool, true, false, ◌&&◌, ◌||◌, none, List, [], ◌∷◌, ◌++◌, any, find_if,
  str_eq,
}
use durarun_operator.Store.{
  SandboxPool, SandboxPoolSpec, SandboxPolicy, SandboxPolicySpec, Statement, ok, insert_when,
}
use durarun_operator.Store.Jobs.{one_row}
use durarun_operator.Store.Table.{update_by, order_by}

abbrev pub new_sandbox_pool : String → String → SandboxPoolSpec → ℤ → SandboxPool
new_sandbox_pool id name spec now = record {
  id = id;
  name = name;
  spec = spec;
  total_pods = pos 0;
  idle_pods = pos 0;
  claimed_pods = pos 0;
  last_scale_time = none;
  ready = false;
  created_at = now;
  updated_at = now;
}

-- Store.CreateSandboxPool; the name is unique.
unfoldable pub create_sandbox_pool : String → String → SandboxPoolSpec → ℤ → Statement SandboxPool
create_sandbox_pool id name spec now db =
    insert_when (any (λ p. str_eq p.id id || str_eq p.name name) db.sandbox_pools) true
      (λ d. (
        ok (new_sandbox_pool id name spec now),
        record d { sandbox_pools = d.sandbox_pools ++ new_sandbox_pool id name spec now ∷ [] },
      ))
      db

-- Store.GetSandboxPool
unfoldable pub get_sandbox_pool : String → Statement SandboxPool
get_sandbox_pool name db = one_row (find_if (λ p. str_eq p.name name) db.sandbox_pools) db

-- Store.ListSandboxPools: ORDER BY created_at
unfoldable pub list_sandbox_pools : Statement (List SandboxPool)
unfolding order_by
list_sandbox_pools db =
    (ok (order_by (λ p q. ltb_ℤ p.created_at q.created_at) db.sandbox_pools), db)

-- Store.UpdateSandboxPoolStatus; no row is no error.
unfoldable pub update_sandbox_pool_status : String → ℤ → ℤ → ℤ → Bool → ℤ → Statement Unit
update_sandbox_pool_status name total idle claimed ready now db = (
  ok tt,
  record db {
    sandbox_pools =
        update_by (λ p. p.name) name
          (λ p. record p {
            total_pods = total;
            idle_pods = idle;
            claimed_pods = claimed;
            ready = ready;
            updated_at = now;
          })
          db.sandbox_pools;
  },
)

-- Store.CreateSandboxPolicy; name and namespace together are unique.
unfoldable pub create_sandbox_policy :
    String → String → String → SandboxPolicySpec → ℤ → Statement Unit
create_sandbox_policy id name namespace spec now db =
    insert_when
      (any (λ p. str_eq p.id id || str_eq p.name name && str_eq p.namespace namespace)
        db.sandbox_policies)
      true
      (λ d. (
        ok tt,
        record d {
          sandbox_policies =
              d.sandbox_policies
              ++ record {
                id = id;
                name = name;
                namespace = namespace;
                spec = spec;
                created_at = now;
              }
                ∷ [];
        },
      ))
      db

-- Store.GetSandboxPolicy: LIMIT 1; which policy of the namespace the query returns is left open, and
-- here it is the first.
unfoldable pub get_sandbox_policy : String → Statement SandboxPolicy
get_sandbox_policy namespace db =
    one_row (find_if (λ p. str_eq p.namespace namespace) db.sandbox_policies) db
