-- ===== src/Pool/Keeps.antt =====
-- Every operation of the manager keeps its map and its order in step (internal/pool/pool.go).
use mathlib.Core.Path.{subst}
use mathlib.Core.List.{append_assoc}
use durarun_operator.Prelude.{
  ℕ, zero, suc, ◌-◌, ◌<◌, ℤ, String, ◌≡◌, refl, sym, ap, ◌∙◌, Bool, false, not, ◌&&◌, List, [], ◌∷◌,
  ◌++◌, map, length, filter_if, ltb, str_eq, eq_iff, if◌then◌else◌, any, is_some, All, All-append,
  arith, Bool-cases, inl, inr,
}
use durarun_operator.Pool.{
  PoolPod, Manager, Sweep, is_idle, delete_pod, create_pod, create_pods, grow, sweep,
  drop_terminating, scaled_up, release, get_pod,
}
use durarun_operator.Pool.Claims.{Distinct}
use durarun_operator.Pool.Size.{delete_pod-absent}

abbrev pub ids_of : List PoolPod → List String
ids_of ps = map (λ p. p.id) ps

filter-ids :
    (f : String → Bool) (ps : List PoolPod)
    → filter_if f (ids_of ps) ≡ ids_of (filter_if (λ p. f p.id) ps)
filter-ids f [] = refl
filter-ids f (p ∷ ps) = ground (arith, filter-ids f ps)

filter-All :
    (P : PoolPod → Type 0) (f : PoolPod → Bool) (ps : List PoolPod)
    → All P ps
    → All P (filter_if f ps)
filter-All P f [] h = tt
filter-All P f (p ∷ ps) h = elim (Bool-cases (f p)) [
  | inl e ↦ rw (e, if◌then◌else◌) (h.0, filter-All P f ps h.1)
  | inr e ↦ rw (e, if◌then◌else◌) (filter-All P f ps h.1)
]

filter-Distinct : (f : PoolPod → Bool) (ps : List PoolPod) → Distinct ps → Distinct (filter_if f ps)
filter-Distinct f [] h = tt
filter-Distinct f (p ∷ ps) h = elim (Bool-cases (f p)) [
  | inl e ↦
      rw (e, if◌then◌else◌)
        (filter-All (λ q. str_eq q.id p.id ≡ false) f ps h.0, filter-Distinct f ps h.1)
  | inr e ↦ rw (e, if◌then◌else◌) (filter-Distinct f ps h.1)
]

snoc-Distinct :
    (ps : List PoolPod) (x : PoolPod)
    → Distinct ps
    → All (λ p. str_eq p.id x.id ≡ false) ps
    → Distinct (ps ++ x ∷ [])
snoc-Distinct [] x d h = (tt, tt)
snoc-Distinct (p ∷ ps) x d h = (
  All-append (λ q. str_eq q.id p.id ≡ false) ps (x ∷ []) d.0
      (ground (arith, h.0, eq_iff x.id p.id, eq_iff p.id x.id), tt),
  snoc-Distinct ps x d.1 h.1,
)

ids-append : (ps qs : List PoolPod) → ids_of (ps ++ qs) ≡ ids_of ps ++ ids_of qs
ids-append [] qs = refl
ids-append (p ∷ ps) qs = ap (λ l. p.id ∷ l) (ids-append ps qs)

All-middle :
    (P : PoolPod → Type 0) (kept rest : List PoolPod) (p : PoolPod) → All P (kept ++ p ∷ rest) → P p
All-middle P [] rest p h = h.0
All-middle P (k ∷ kept) rest p h = All-middle P kept rest p h.1

-- The loop that scales down removes from the map and from the order alike: `kept` was passed, and
-- `rest` is still to come.
delete_at :
    (kept rest : List PoolPod) (p : PoolPod)
    → Distinct (kept ++ p ∷ rest)
    → delete_pod p.id (kept ++ p ∷ rest) ≡ kept ++ rest
delete_at [] rest p d = ground (arith, eq_iff p.id p.id, delete_pod-absent p.id rest d.0)
delete_at (k ∷ kept) rest p d = ground (
  arith,
  delete_at kept rest p d.1,
  All-middle (λ q. str_eq q.id k.id ≡ false) kept rest p d.0,
  eq_iff k.id p.id,
  eq_iff p.id k.id,
)

abbrev pub SweepOk : List PoolPod → Sweep → Type 0
SweepOk kept (pods, removed, order) = Distinct pods × (ids_of pods ≡ ids_of kept ++ order)

pub sweep-SweepOk :
    (min_size : ℕ) (rest kept : List PoolPod) (removed : ℕ)
    → Distinct (kept ++ rest)
    → SweepOk kept (sweep min_size (ids_of rest) (kept ++ rest) removed)
unfolding sweep
sweep-SweepOk min_size [] kept removed d = (d, ids-append kept [])
sweep-SweepOk min_size (p ∷ rest) kept removed d =
    let pods = kept ++ p ∷ rest in
    elim (Bool-cases
      (any (λ q. str_eq q.id p.id && is_idle q) pods && ltb min_size (length pods - removed))) [
        | inl e ↦
            let gone = delete_at kept rest p d in
            let fewer =
              subst Distinct gone (filter-Distinct (λ q. not (str_eq q.id p.id)) pods d) in
            rw (e, if◌then◌else◌)
              (subst (λ x. SweepOk kept (sweep min_size (ids_of rest) x (suc removed))) (sym gone)
                (sweep-SweepOk min_size rest kept (suc removed) fewer))
        | inr e ↦
            let shift = append_assoc kept (p ∷ []) rest in
            let later =
              subst (λ x. SweepOk (kept ++ p ∷ []) (sweep min_size (ids_of rest) x removed)) shift
                (sweep-SweepOk min_size rest (kept ++ p ∷ []) removed
                  (subst Distinct (sym shift) d)) in
            let order = (sweep min_size (ids_of rest) pods removed).2 in
            rw (e, if◌then◌else◌)
              (
                later.0,
                later.1
                    ∙ ap (λ l. l ++ order) (ids-append kept (p ∷ []))
                    ∙ append_assoc (ids_of kept) (p.id ∷ []) order,
              )
      ]

pub sweep-All :
    (P : String → Type 0) (min_size : ℕ) (ids : List String) (pods : List PoolPod) (removed : ℕ)
    → All P ids
    → All P (sweep min_size ids pods removed).2
unfolding sweep
sweep-All P min_size [] pods removed h = tt
sweep-All P min_size (id ∷ ids) pods removed h =
    elim (Bool-cases
      (any (λ p. str_eq p.id id && is_idle p) pods && ltb min_size (length pods - removed))) [
        | inl e ↦
            rw (e, if◌then◌else◌) (sweep-All P min_size ids (delete_pod id pods) (suc removed) h.1)
        | inr e ↦ rw (e, if◌then◌else◌) (h.0, sweep-All P min_size ids pods removed h.1)
      ]

filter-strings :
    (P : String → Type 0) (f : String → Bool) (ids : List String)
    → All P ids
    → All P (filter_if f ids)
filter-strings P f [] h = tt
filter-strings P f (x ∷ xs) h = elim (Bool-cases (f x)) [
  | inl e ↦ rw (e, if◌then◌else◌) (h.0, filter-strings P f xs h.1)
  | inr e ↦ rw (e, if◌then◌else◌) (filter-strings P f xs h.1)
]

module _ (uuid : ℕ → String) where
  -- The identifiers are among the first n that were made.
  abbrev pub Minted : ℕ → List String → Type 0
  Minted n ids = All (λ x. (k : ℕ) × (k < n) × (x ≡ uuid k)) ids

  -- The order lists the pods of the map, whose ids differ, and their ids were made before.
  pub record IsWellFormed (m : Manager) : Type 0 where
    pub distinct : Distinct m.pods
    pub ordered : m.pod_order ≡ map (λ p. p.id) m.pods
    pub minted : Minted m.created m.pod_order

  Minted-weaken : (n : ℕ) (ids : List String) → Minted n ids → Minted (suc n) ids
  Minted-weaken n [] h = tt
  Minted-weaken n (x ∷ xs) h = ((h.0.0, omega (arith, h.0.1), h.0.2), Minted-weaken n xs h.1)

  module _ (unique : (i j : ℕ) → i < j → str_eq (uuid i) (uuid j) ≡ false) where
    fresh :
        (n : ℕ) (ps : List PoolPod)
        → Minted n (ids_of ps)
        → All (λ p. str_eq p.id (uuid n) ≡ false) ps
    fresh n [] h = tt
    fresh n (p ∷ ps) h = (ap (λ x. str_eq x (uuid n)) h.0.2 ∙ unique h.0.0 n h.0.1, fresh n ps h.1)

    create_pod-IsWellFormed :
        (now : ℤ) (m : Manager) → IsWellFormed m → IsWellFormed (create_pod uuid now m)
    unfolding create_pod
    create_pod-IsWellFormed now m h = record {
      distinct =
          snoc-Distinct m.pods _ h.distinct
            (fresh m.created m.pods (subst (Minted m.created) h.ordered h.minted));
      ordered = ap (λ l. l ++ uuid m.created ∷ []) h.ordered ∙ sym (ids-append m.pods _);
      minted =
          All-append _ m.pod_order (uuid m.created ∷ [])
            (Minted-weaken m.created m.pod_order h.minted) ((m.created, omega arith, refl), tt);
    }

    pub create_pods-IsWellFormed :
        (n : ℕ) (now : ℤ) (m : Manager) → IsWellFormed m → IsWellFormed (create_pods uuid n now m)
    unfolding create_pods
    create_pods-IsWellFormed zero now m h = h
    create_pods-IsWellFormed (suc n) now m h =
        create_pods-IsWellFormed n now (create_pod uuid now m) (create_pod-IsWellFormed now m h)

    -- What a filter of the map by ids, with the same filter of the order, leaves.
    filtered-IsWellFormed :
        (f : String → Bool) (m : Manager)
        → IsWellFormed m
        → IsWellFormed (record m {
          pods = filter_if (λ p. f p.id) m.pods;
          pod_order = filter_if f m.pod_order;
        })
    filtered-IsWellFormed f m h = record {
      distinct = filter-Distinct (λ p. f p.id) m.pods h.distinct;
      ordered = ap (filter_if f) h.ordered ∙ filter-ids f m.pods;
      minted = filter-strings _ f m.pod_order h.minted;
    }

    pub release-IsWellFormed :
        (id : String) (now : ℤ) (m : Manager)
        → IsWellFormed m
        → IsWellFormed (release uuid id now m).1
    unfolding release
    release-IsWellFormed id now m h = elim (Bool-cases (is_some (get_pod id m.pods))) [
      | inl e ↦
          rw (e, if◌then◌else◌)
            (create_pod-IsWellFormed now _ (filtered-IsWellFormed (λ x. not (str_eq x id)) m h))
      | inr e ↦ rw (e, if◌then◌else◌) h
    ]

    pub grow-IsWellFormed :
        (n : ℕ) (now : ℤ) (m : Manager) → IsWellFormed m → IsWellFormed (grow uuid n now m)
    unfolding grow
    grow-IsWellFormed zero now m h = h
    grow-IsWellFormed (suc n) now m h = elim (Bool-cases (ltb (length m.pods) m.cfg.max_size)) [
      | inl e ↦
          rw (e, if◌then◌else◌)
            (grow-IsWellFormed n now (create_pod uuid now m) (create_pod-IsWellFormed now m h))
      | inr e ↦ rw (e, if◌then◌else◌) h
    ]

    pub drop_terminating-IsWellFormed :
        (m : Manager) → IsWellFormed m → IsWellFormed (drop_terminating m)
    unfolding drop_terminating
    drop_terminating-IsWellFormed m h = filtered-IsWellFormed _ m h

    pub scaled_up-IsWellFormed :
        (now : ℤ) (m : Manager) → IsWellFormed m → IsWellFormed (scaled_up now m)
    scaled_up-IsWellFormed now m h = record {
      distinct = h.distinct;
      ordered = h.ordered;
      minted = h.minted;
    }
