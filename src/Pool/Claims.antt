-- ===== src/Pool/Claims.antt =====
-- Which pod Claim takes, and that it stays taken (internal/pool/pool.go).
use durarun_operator.Prelude.{
  suc, ℤ, String, ◌≡◌, refl, sym, ap, ◌∙◌, true, false, Option, none, some, List, [], ◌∷◌, map,
  count_if, find_if, str_eq, eq_iff, if◌then◌else◌, All, arith, Bool-cases, inl, inr,
}
use mathlib.Core.Path.{subst}
use durarun_operator.Pool.{
  PoolPod, Manager, is_idle, is_claimed, get_pod, put_pod, first_idle, idle_or, claimed_pod,
  claim_found, claim,
}

-- The keys of a map are different.
abbrev pub Distinct : List PoolPod → Type 0
Distinct [] = Unit
Distinct (p ∷ ps) = All (λ q. str_eq q.id p.id ≡ false) ps × Distinct ps

-- The map and the order have the same pods.
pub record IsConsistent (m : Manager) : Type 0 where
  pub distinct : Distinct m.pods
  pub ordered : m.pod_order ≡ map (λ p. p.id) m.pods

-- Every pod is found under its own id.
Found : List PoolPod → List PoolPod → Type 0
Found pods ps = All (λ p. get_pod p.id pods ≡ some p) ps

Found-cons :
    (q : PoolPod) (pods ps : List PoolPod)
    → All (λ p. str_eq p.id q.id ≡ false) ps
    → Found pods ps
    → Found (q ∷ pods) ps
unfolding Found
Found-cons q pods [] d f = tt
Found-cons q pods (p ∷ ps) d f =
    (ground (arith, d.0, f.0, eq_iff q.id p.id, eq_iff p.id q.id), Found-cons q pods ps d.1 f.1)

Found-self : (pods : List PoolPod) → Distinct pods → Found pods pods
unfolding Found
Found-self [] d = tt
Found-self (p ∷ ps) d =
    (ground (arith, eq_iff p.id p.id), Found-cons p ps ps d.0 (Found-self ps d.1))

first_idle-find :
    (pods ps : List PoolPod)
    → Found pods ps
    → first_idle pods (map (λ p. p.id) ps) ≡ find_if is_idle ps
unfolding first_idle idle_or Found
first_idle-find pods [] f = refl
first_idle-find pods (p ∷ ps) f = rw (f.0, first_idle-find pods ps f.1) refl

All-find :
    (x : String) (ps : List PoolPod) (q : PoolPod)
    → All (λ p. str_eq p.id x ≡ false) ps
    → find_if is_idle ps ≡ some q
    → str_eq q.id x ≡ false
All-find x [] q d h = ground arith
All-find x (p ∷ ps) q d h = ground (arith, d.0, All-find x ps q d.1)

put_pod-absent :
    (c : PoolPod) (ps : List PoolPod) → All (λ p. str_eq p.id c.id ≡ false) ps → put_pod c ps ≡ ps
put_pod-absent c [] d = refl
put_pod-absent c (p ∷ ps) d = ground (arith, d.0, put_pod-absent c ps d.1)

pub put_pod-ids :
    (c : PoolPod) (ps : List PoolPod) → map (λ p. p.id) (put_pod c ps) ≡ map (λ p. p.id) ps
put_pod-ids c [] = refl
put_pod-ids c (p ∷ ps) = ground (arith, eq_iff p.id c.id, put_pod-ids c ps)

put_pod-All :
    (x : String) (c : PoolPod) (ps : List PoolPod)
    → All (λ p. str_eq p.id x ≡ false) ps
    → All (λ p. str_eq p.id x ≡ false) (put_pod c ps)
put_pod-All x c [] d = tt
put_pod-All x c (p ∷ ps) d = (ground (arith, d.0, eq_iff p.id c.id), put_pod-All x c ps d.1)

pub put_pod-Distinct : (c : PoolPod) (ps : List PoolPod) → Distinct ps → Distinct (put_pod c ps)
put_pod-Distinct c [] d = tt
put_pod-Distinct c (p ∷ ps) d = elim (Bool-cases (str_eq p.id c.id)) [
  | inl e ↦
      rw (e, if◌then◌else◌)
        (
          subst (λ x. All (λ q. str_eq q.id x ≡ false) (put_pod c ps)) ((eq_iff p.id c.id).0 e)
              (put_pod-All p.id c ps d.0),
          put_pod-Distinct c ps d.1,
        )
  | inr e ↦ rw (e, if◌then◌else◌) (put_pod-All p.id c ps d.0, put_pod-Distinct c ps d.1)
]

no_idle : (ps : List PoolPod) → find_if is_idle ps ≡ none → count_if is_idle ps ≡ 0
no_idle [] h = refl
no_idle (p ∷ ps) h = ground (arith, no_idle ps)

found_idle : (ps : List PoolPod) (q : PoolPod) → find_if is_idle ps ≡ some q → is_idle q ≡ true
found_idle [] q h = ground arith
found_idle (p ∷ ps) q h = ground (arith, found_idle ps q)

found_there :
    (ps : List PoolPod) (q : PoolPod)
    → Distinct ps
    → find_if is_idle ps ≡ some q
    → get_pod q.id ps ≡ some q
found_there [] q d h = ground arith
found_there (p ∷ ps) q d h =
    ground (arith, eq_iff p.id q.id, eq_iff q.id p.id, found_there ps q d.1, All-find p.id ps q d.0)

-- The pods after one idle pod was claimed.
record Counted (q c : PoolPod) (ps : List PoolPod) : Type 0 where
  idle : suc (count_if is_idle (put_pod c ps)) ≡ count_if is_idle ps
  claimed : count_if is_claimed (put_pod c ps) ≡ suc (count_if is_claimed ps)
  there : get_pod c.id (put_pod c ps) ≡ some c

claimed_head :
    (c p : PoolPod) (ps : List PoolPod)
    → All (λ r. str_eq r.id p.id ≡ false) ps
    → c.id ≡ p.id
    → is_idle p ≡ true
    → is_claimed c ≡ true
    → Counted p c (p ∷ ps)
claimed_head c p ps d e i k =
    let absent = put_pod-absent c ps (subst (λ x. All (λ r. str_eq r.id x ≡ false) ps) (sym e) d) in
    record {
      idle = ground (arith, i, k, absent, eq_iff p.id c.id);
      claimed = ground (arith, i, k, absent, eq_iff p.id c.id);
      there = ground (arith, absent, eq_iff p.id c.id, eq_iff c.id c.id);
    }

claimed_tail :
    (q c p : PoolPod) (ps : List PoolPod)
    → str_eq p.id c.id ≡ false
    → is_idle p ≡ false
    → Counted q c ps
    → Counted q c (p ∷ ps)
claimed_tail q c p ps e i h = record {
  idle = ground (arith, e, i, h.idle);
  claimed = ground (arith, e, i, h.claimed);
  there = ground (arith, e, h.there);
}

some_injective : (p q : PoolPod) → some p ≡ some q → p ≡ q
some_injective p q h = cc

counted :
    (q c : PoolPod) (ps : List PoolPod)
    → Distinct ps
    → c.id ≡ q.id
    → is_claimed c ≡ true
    → find_if is_idle ps ≡ some q
    → Counted q c ps
counted q c [] d e k h = ground arith
counted q c (p ∷ ps) d e k h = elim (Bool-cases (is_idle p)) [
  | inl i ↦
      let same : p ≡ q = some_injective p q (ground (arith, i, h)) in
      subst (λ x. Counted x c (p ∷ ps)) same
        (claimed_head c p ps d.0 (e ∙ sym (ap (λ x. x.id) same)) i k)
  | inr i ↦
      let there : find_if is_idle ps ≡ some q = ground (arith, i, h) in
      claimed_tail q c p ps
        (ground (arith, e, eq_iff p.id c.id, eq_iff q.id p.id, All-find p.id ps q d.0 there)) i
        (counted q c ps d.1 e k there)
]

-- A claim that found a pod: what the pod was, and what the manager has afterwards.
pub record Taken (job : String) (now : ℤ) (m : Manager) (p : PoolPod) (after : Manager)
    : Type 0 where
  pub before : PoolPod
  pub was_there : get_pod before.id m.pods ≡ some before
  pub was_idle : is_idle before ≡ true
  pub is_marked : p ≡ claimed_pod job now before
  pub is_there : get_pod p.id after.pods ≡ some p
  pub one_less_idle : suc (count_if is_idle after.pods) ≡ count_if is_idle m.pods
  pub one_more_claimed : count_if is_claimed after.pods ≡ suc (count_if is_claimed m.pods)
  pub consistent : IsConsistent after

-- What is said of a claim that found nothing, or a pod.
abbrev pub Outcome : String → ℤ → Manager → Option PoolPod × Manager → Type 0
Outcome job now m (none, after) = (count_if is_idle m.pods ≡ 0) × (after.pods ≡ m.pods)
Outcome job now m (some p, after) = Taken job now m p after

claim_found-Outcome :
    (job : String) (now : ℤ) (m : Manager) (found : Option PoolPod)
    → IsConsistent m
    → find_if is_idle m.pods ≡ found
    → Outcome job now m (claim_found job now m found)
unfolding claim_found
claim_found-Outcome job now m none c h = (no_idle m.pods h, refl)
claim_found-Outcome job now m (some q) c h =
    let marked = claimed_pod job now q in
    let k = counted q marked m.pods c.distinct refl refl h in
    record {
      before = q;
      was_there = found_there m.pods q c.distinct h;
      was_idle = found_idle m.pods q h;
      is_marked = refl;
      is_there = k.there;
      one_less_idle = k.idle;
      one_more_claimed = k.claimed;
      consistent = record {
        distinct = put_pod-Distinct marked m.pods c.distinct;
        ordered = c.ordered ∙ sym (put_pod-ids marked m.pods);
      };
    }

-- When the order lists the pods of the map and their ids differ, Claim fails only if no pod is idle,
-- and changes no pod then. Otherwise it returns a pod of the map that was idle, marked as claimed by
-- the job; afterwards the map has that pod, one idle pod less and one claimed pod more, and the
-- order still lists the pods.
pub claim-Outcome :
    (job : String) (now : ℤ) (m : Manager) → IsConsistent m → Outcome job now m (claim job now m)
unfolding claim
claim-Outcome job now m c = claim_found-Outcome job now m (first_idle m.pods m.pod_order) c (
    sym (
      ap (first_idle m.pods) c.ordered
      ∙ first_idle-find m.pods m.pods (Found-self m.pods c.distinct)))
