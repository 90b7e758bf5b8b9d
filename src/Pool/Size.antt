-- ===== src/Pool/Size.antt =====
-- How many pods Reconcile leaves (internal/pool/pool.go).
use mathlib.Core.Path.{subst}
use durarun_operator.Prelude.{
  ℕ, zero, suc, ◌+◌, ◌-◌, ◌*◌, ◌≤◌, max, ℤ, String, ◌≡◌, refl, ap, ◌∙◌, false, ◌&&◌, List, [], ◌∷◌,
  ◌++◌, length, ltb, str_eq, eq_iff, if◌then◌else◌, any, All, arith, Bool-cases, inl, inr,
}
use durarun_operator.Pool.{
  PoolPod, Manager, is_idle, delete_pod, create_pod, grow, sweep, scale_down, scaled_up,
}
use durarun_operator.Pool.Claims.{Distinct}

pub delete_pod-absent :
    (id : String) (ps : List PoolPod) → All (λ p. str_eq p.id id ≡ false) ps → delete_pod id ps ≡ ps
delete_pod-absent id [] d = refl
delete_pod-absent id (p ∷ ps) d = ground (arith, d.0, delete_pod-absent id ps d.1)

-- At most one pod has the id.
length-delete_pod :
    (id : String) (ps : List PoolPod) → Distinct ps → length ps ≤ suc (length (delete_pod id ps))
length-delete_pod id [] d = omega arith
length-delete_pod id (p ∷ ps) d = elim (Bool-cases (str_eq p.id id)) [
  | inl e ↦
      let same =
        delete_pod-absent id ps
          (subst (λ x. All (λ q. str_eq q.id x ≡ false) ps) ((eq_iff p.id id).0 e) d.0) in
      rw (e, if◌then◌else◌) (omega (arith, ap length same))
  | inr e ↦ rw (e, if◌then◌else◌) (omega (arith, length-delete_pod id ps d.1))
]

All-delete_pod :
    (x id : String) (ps : List PoolPod)
    → All (λ p. str_eq p.id x ≡ false) ps
    → All (λ p. str_eq p.id x ≡ false) (delete_pod id ps)
All-delete_pod x id [] d = tt
All-delete_pod x id (p ∷ ps) d = elim (Bool-cases (str_eq p.id id)) [
  | inl e ↦ rw (e, if◌then◌else◌) (All-delete_pod x id ps d.1)
  | inr e ↦ rw (e, if◌then◌else◌) (d.0, All-delete_pod x id ps d.1)
]

delete_pod-Distinct : (id : String) (ps : List PoolPod) → Distinct ps → Distinct (delete_pod id ps)
delete_pod-Distinct id [] d = tt
delete_pod-Distinct id (p ∷ ps) d = elim (Bool-cases (str_eq p.id id)) [
  | inl e ↦ rw (e, if◌then◌else◌) (delete_pod-Distinct id ps d.1)
  | inr e ↦ rw (e, if◌then◌else◌) (All-delete_pod p.id id ps d.0, delete_pod-Distinct id ps d.1)
]

sweep-keeps :
    (min_size : ℕ) (ids : List String) (pods : List PoolPod) (removed : ℕ)
    → Distinct pods
    → removed + min_size ≤ suc (length pods)
    → length pods + removed + min_size ≤ 2 * length (sweep min_size ids pods removed).0 + 1
unfolding sweep
sweep-keeps min_size [] pods removed d h = omega (arith, h)
sweep-keeps min_size (id ∷ ids) pods removed d h =
    let less = length-delete_pod id pods d in
    elim (Bool-cases
      (any (λ p. str_eq p.id id && is_idle p) pods && ltb min_size (length pods - removed))) [
        | inl e ↦
            let room : suc (removed + min_size) ≤ length pods = ground (arith, e) in
            rw (e, if◌then◌else◌)
              (omega (
                arith,
                less,
                sweep-keeps min_size ids (delete_pod id pods) (suc removed)
                    (delete_pod-Distinct id pods d) (omega (arith, less, room)),
              ))
        | inr e ↦ rw (e, if◌then◌else◌) (sweep-keeps min_size ids pods removed d h)
      ]

scale_down-pods :
    (now : ℤ) (m : Manager)
    → (scale_down now m).pods ≡ (sweep m.cfg.min_size m.pod_order m.pods 0).0
unfolding scale_down
scale_down-pods now m = ground arith

-- Scaling down a pool of distinct pods, at least as many as the minimum, keeps the minimum, and of
-- the pods above the minimum it keeps about half: twice the rest, and one, is at least the number
-- before and the minimum together.
pub scale_down-keeps :
    (now : ℤ) (m : Manager)
    → Distinct m.pods
    → m.cfg.min_size ≤ length m.pods
    → (m.cfg.min_size ≤ length (scale_down now m).pods)
      × (length m.pods + m.cfg.min_size ≤ 2 * length (scale_down now m).pods + 1)
scale_down-keeps now m d h =
    let kept = sweep-keeps m.cfg.min_size m.pod_order m.pods 0 d (omega (arith, h)) in
    rw (scale_down-pods now m) (omega (arith, kept, h), omega (arith, kept))

-- The pods before, and new ones behind them.
abbrev pub Extends : List PoolPod → List PoolPod → Type 0
Extends old after = (new : List PoolPod) × (after ≡ old ++ new)

abbrev Bounded : ℕ → Manager → Manager → Type 0
Bounded size m after = (size ≤ length after.pods) × (length after.pods ≤ max size m.cfg.max_size)

module _ (uuid : ℕ → String) where
  create_pod-cfg : (now : ℤ) (m : Manager) → (create_pod uuid now m).cfg ≡ m.cfg
  unfolding create_pod
  create_pod-cfg now m = refl

  grow-cfg : (n : ℕ) (now : ℤ) (m : Manager) → (grow uuid n now m).cfg ≡ m.cfg
  unfolding grow
  grow-cfg zero now m = refl
  grow-cfg (suc n) now m = elim (Bool-cases (ltb (length m.pods) m.cfg.max_size)) [
    | inl e ↦ rw (e, if◌then◌else◌) (grow-cfg n now (create_pod uuid now m) ∙ create_pod-cfg now m)
    | inr e ↦ rw (e, if◌then◌else◌) refl
  ]

  scaled_up-pods : (now : ℤ) (m : Manager) → (scaled_up now m).pods ≡ m.pods
  scaled_up-pods now m = refl
