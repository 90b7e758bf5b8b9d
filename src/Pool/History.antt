-- ===== src/Pool/History.antt =====
-- The managers that operations lead to, one after another (internal/pool/pool.go).
use mathlib.Core.Path.{subst}
use durarun_operator.Prelude.{
  ℕ, ◌<◌, ℤ, String, ◌≡◌, refl, sym, ap, ◌∙◌, Bool, true, false, ◌&&◌, Option, none, some, [],
  length, count_if, ltb, str_eq, if◌then◌else◌, arith, Bool-cases, inl, inr,
}
use durarun_operator.Pool.{
  PoolPod, PoolConfig, Manager, is_idle, new_manager, claim, claim_found, release, grow, sweep,
  scale_down, scale_up, rebalance, burst_or_rebalance, drop_terminating, reconcile, cooldown_ok,
}
use durarun_operator.Pool.Claims.{Distinct, IsConsistent, Outcome, claim-Outcome}
use durarun_operator.Pool.Keeps.{
  Minted, IsWellFormed, SweepOk, ids_of, sweep-SweepOk, sweep-All, create_pods-IsWellFormed,
  release-IsWellFormed, grow-IsWellFormed, drop_terminating-IsWellFormed, scaled_up-IsWellFormed,
}

scale_down-parts :
    (now : ℤ) (m : Manager)
    → let s = sweep m.cfg.min_size m.pod_order m.pods 0 in
      let after = scale_down now m in
      (after.pods ≡ s.0) × (after.pod_order ≡ s.2) × (after.created ≡ m.created)
unfolding scale_down
scale_down-parts now m = (ground arith, ground arith, ground arith)

claim-parts :
    (job : String) (now : ℤ) (m : Manager)
    → let after = (claim job now m).1 in
      (after.pod_order ≡ m.pod_order) × (after.created ≡ m.created)
unfolding claim claim_found
claim-parts job now m = (ground arith, ground arith)

Outcome-IsConsistent :
    (job : String) (now : ℤ) (m : Manager) (r : Option PoolPod × Manager)
    → IsConsistent m
    → r.1.pod_order ≡ m.pod_order
    → Outcome job now m r
    → IsConsistent r.1
Outcome-IsConsistent job now m (none, after) c o h = record {
  distinct = subst Distinct (sym h.1) c.distinct;
  ordered = o ∙ c.ordered ∙ ap ids_of (sym h.1);
}
Outcome-IsConsistent job now m (some p, after) c o h = h.consistent

module _ (uuid : ℕ → String) where
  IsWellFormed-IsConsistent : (m : Manager) → IsWellFormed uuid m → IsConsistent m
  IsWellFormed-IsConsistent m h = record { distinct = h.distinct; ordered = h.ordered }

  claim-IsWellFormed :
      (job : String) (now : ℤ) (m : Manager)
      → IsWellFormed uuid m
      → IsWellFormed uuid (claim job now m).1
  claim-IsWellFormed job now m h =
      let parts = claim-parts job now m in
      let before = IsWellFormed-IsConsistent m h in
      let after =
        Outcome-IsConsistent job now m (claim job now m) before parts.0
          (claim-Outcome job now m before) in
      record {
        distinct = after.distinct;
        ordered = after.ordered;
        minted =
            subst (λ n. Minted uuid n (claim job now m).1.pod_order) (sym parts.1)
              (subst (Minted uuid m.created) (sym parts.0) h.minted);
      }

  -- One operation of the manager.
  pub data Step : Manager → Manager → Type 0 where
    claims : (job : String) (now : ℤ) (m : Manager) → Step m (claim job now m).1
    releases : (id : String) (now : ℤ) (m : Manager) → Step m (release uuid id now m).1
    demands : (n : ℕ) (m : Manager) → Step m (record m { pending_demand = n })
    reconciles : (now : ℤ) (m : Manager) → Step m (reconcile uuid now m)

  -- The managers that a configuration leads to.
  pub data Reachable : PoolConfig → Manager → Type 0 where
    start : (now : ℤ) (cfg : PoolConfig) → Reachable cfg (new_manager uuid now cfg)
    then_step :
        (cfg : PoolConfig) (m after : Manager)
        → Reachable cfg m
        → Step m after
        → Reachable cfg after

  module _ (unique : (i j : ℕ) → i < j → str_eq (uuid i) (uuid j) ≡ false) where
    scale_down-IsWellFormed :
        (now : ℤ) (m : Manager) → IsWellFormed uuid m → IsWellFormed uuid (scale_down now m)
    scale_down-IsWellFormed now m h =
        let parts = scale_down-parts now m in
        let swept : SweepOk [] (sweep m.cfg.min_size m.pod_order m.pods 0) =
          subst (λ ids. SweepOk [] (sweep m.cfg.min_size ids m.pods 0)) (sym h.ordered)
            (sweep-SweepOk m.cfg.min_size m.pods [] 0 h.distinct) in
        record {
          distinct = subst Distinct (sym parts.0) swept.0;
          ordered = parts.1 ∙ sym swept.1 ∙ ap ids_of (sym parts.0);
          minted =
              subst (λ n. Minted uuid n (scale_down now m).pod_order) (sym parts.2)
                (subst (Minted uuid m.created) (sym parts.1)
                  (sweep-All _ m.cfg.min_size m.pod_order m.pods 0 h.minted));
        }

    scale_up-IsWellFormed :
        (now : ℤ) (m : Manager) → IsWellFormed uuid m → IsWellFormed uuid (scale_up uuid now m)
    unfolding scale_up
    scale_up-IsWellFormed now m h =
        let grown = grow-IsWellFormed uuid unique m.cfg.scale_up_step now m h in
        elim (Bool-cases
          (ltb (length m.pods) (length (grow uuid m.cfg.scale_up_step now m).pods))) [
            | inl e ↦ rw (e, if◌then◌else◌) (scaled_up-IsWellFormed uuid unique now _ grown)
            | inr e ↦ rw (e, if◌then◌else◌) grown
          ]

    maybe-IsWellFormed :
        (b c : Bool) (now : ℤ) (m : Manager)
        → IsWellFormed uuid m
        → let m1 : Manager = if b then scale_up uuid now m else m in
          IsWellFormed uuid (if c then scale_down now m1 else m1)
    maybe-IsWellFormed true true now m h =
        scale_down-IsWellFormed now _ (scale_up-IsWellFormed now m h)
    maybe-IsWellFormed true false now m h = scale_up-IsWellFormed now m h
    maybe-IsWellFormed false true now m h = scale_down-IsWellFormed now m h
    maybe-IsWellFormed false false now m h = h

    rebalance-IsWellFormed :
        (now : ℤ) (m : Manager) → IsWellFormed uuid m → IsWellFormed uuid (rebalance uuid now m)
    unfolding rebalance
    rebalance-IsWellFormed now m h = elim (Bool-cases (ltb 0 (length m.pods))) [
      | inl e ↦
          rw (e, if◌then◌else◌)
            (maybe-IsWellFormed
              (m.cfg.ratio_is_low (count_if is_idle m.pods) (length m.pods)
                && cooldown_ok now m m.last_scale_time)
              (m.cfg.ratio_is_high (count_if is_idle m.pods) (length m.pods)
                && ltb m.cfg.min_size (length m.pods)
                && cooldown_ok now m m.last_scale_time)
              now m h)
      | inr e ↦ rw (e, if◌then◌else◌) h
    ]

    reconcile-IsWellFormed :
        (now : ℤ) (m : Manager) → IsWellFormed uuid m → IsWellFormed uuid (reconcile uuid now m)
    unfolding reconcile burst_or_rebalance
    reconcile-IsWellFormed now m h =
        let left = drop_terminating m in
        let ok = drop_terminating-IsWellFormed uuid unique m h in
        elim (Bool-cases (ltb (count_if is_idle left.pods) left.pending_demand)) [
          | inl e ↦
              rw (e, if◌then◌else◌)
                (scaled_up-IsWellFormed uuid unique now _
                  (grow-IsWellFormed uuid unique _ now left ok))
          | inr e ↦ rw (e, if◌then◌else◌) (rebalance-IsWellFormed now left ok)
        ]

    new_manager-IsWellFormed :
        (now : ℤ) (cfg : PoolConfig) → IsWellFormed uuid (new_manager uuid now cfg)
    unfolding new_manager
    new_manager-IsWellFormed now cfg =
        create_pods-IsWellFormed uuid unique cfg.min_size now _
          (record { distinct = tt; ordered = refl; minted = tt })

    Step-IsWellFormed :
        (m after : Manager) → Step m after → IsWellFormed uuid m → IsWellFormed uuid after
    Step-IsWellFormed _ _ (claims job now m) h = claim-IsWellFormed job now m h
    Step-IsWellFormed _ _ (releases id now m) h = release-IsWellFormed uuid unique id now m h
    Step-IsWellFormed _ _ (demands n m) h = record {
      distinct = h.distinct;
      ordered = h.ordered;
      minted = h.minted;
    }
    Step-IsWellFormed _ _ (reconciles now m) h = reconcile-IsWellFormed now m h

    Reachable-IsWellFormed :
        (cfg : PoolConfig) (m : Manager) → Reachable cfg m → IsWellFormed uuid m
    Reachable-IsWellFormed _ _ (start now cfg) = new_manager-IsWellFormed now cfg
    Reachable-IsWellFormed _ _ (then_step cfg m after r s) =
        Step-IsWellFormed m after s (Reachable-IsWellFormed cfg m r)

    -- When the identifiers that are made all differ, then after NewManager and any sequence of
    -- claims, releases, demands and reconciliations, the order lists the pods of the map, whose ids
    -- differ and were made before; and the next Claim fails only if no pod is idle, and otherwise
    -- turns one idle pod of the map into a claimed one.
    pub Reachable-claims :
        (cfg : PoolConfig) (m : Manager) (job : String) (now : ℤ)
        → Reachable cfg m
        → IsWellFormed uuid m × Outcome job now m (claim job now m)
    Reachable-claims cfg m job now r =
        let h = Reachable-IsWellFormed cfg m r in
        (h, claim-Outcome job now m (IsWellFormed-IsConsistent m h))
