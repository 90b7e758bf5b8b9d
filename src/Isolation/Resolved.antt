-- ===== src/Isolation/Resolved.antt =====
-- What ResolveLevel chooses (internal/isolation/isolation.go).
use mathlib.Core.Path.{subst}
use mathlib.Core.Option.{some_inj}
use durarun_operator.Prelude.{
  String, sym, ap, ◌∙◌, str_eq, eq_iff, eq_refl, Option-cases, ◌≡◌, refl, Bool, true, false, not,
  ◌&&◌, ◌||◌, Option, none, some, List, [], ◌∷◌, any, find_if, if◌then◌else◌, arith, Bool-cases,
  inl, inr,
}
use durarun_operator.Isolation.{
  Level, LevelResult, SandboxPolicy, l0_process, l1_gvisor, l2_firecracker, l3_docker, level_eq,
  level_name, resolved, unavailable, not_allowed, resolve_level, resolve_policy, resolve_allowed,
  first_available, fallback_order, or_unavailable, level_or, is_empty,
}

-- The level that is asked for, or the default.
abbrev pub asked_level : Option Level → Option SandboxPolicy → Level
asked_level requested none = level_or requested l1_gvisor
asked_level requested (some policy) = level_or requested (level_or policy.default_level l1_gvisor)

abbrev pub forced_by : Option SandboxPolicy → Option Level
forced_by none = none
forced_by (some policy) = policy.force_level

-- Nothing is available but, perhaps, under a forced level.
abbrev pub NoneAvailable : (Level → Bool) → Type 0
NoneAvailable available = (l : Level) → available l ≡ false

-- What an answer means when no level is forced and the policy allows the level asked for.
abbrev pub IsChosen : (Level → Bool) → Level → LevelResult → Type 0
IsChosen available asked (resolved l) =
    (available l ≡ true) × ((level_eq l asked || not (available asked)) ≡ true)
IsChosen available asked unavailable = NoneAvailable available
IsChosen available asked not_allowed = ⊥

-- The level that a string names.
abbrev level_of : String → Level
level_of s =
    if str_eq s "L0"
    then l0_process
    else if str_eq s "L1"
    then l1_gvisor
    else if str_eq s "L2"
    then l2_firecracker
    else l3_docker

level_of-name : (l : Level) → level_of (level_name l) ≡ l
level_of-name l0_process = refl
level_of-name l1_gvisor = refl
level_of-name l2_firecracker = refl
level_of-name l3_docker = refl

level_eq→≡ : (l k : Level) → level_eq l k ≡ true → l ≡ k
level_eq→≡ l k e =
    sym (level_of-name l)
    ∙ ap level_of ((eq_iff (level_name l) (level_name k)).0 e)
    ∙ level_of-name k

none_left :
    (available : Level → Bool) (asked l : Level)
    → available asked ≡ false
    → (not (level_eq l asked) && available l) ≡ false
    → available l ≡ false
none_left available asked l e h = elim (Bool-cases (level_eq l asked)) [
  | inl same ↦ ap available (level_eq→≡ l asked same) ∙ e
  | inr other ↦ ground (arith, h, other)
]

none_passes : (p : Level → Bool) → find_if p fallback_order ≡ none → (l : Level) → p l ≡ false
none_passes p h l0_process = ground (arith, h)
none_passes p h l1_gvisor = ground (arith, h)
none_passes p h l2_firecracker = ground (arith, h)
none_passes p h l3_docker = ground (arith, h)

find-passes : (p : Level → Bool) (ls : List Level) (l : Level) → find_if p ls ≡ some l → p l ≡ true
find-passes p [] l h = absurd (ground (arith, h))
find-passes p (k ∷ ls) l h = elim (Bool-cases (p k)) [
  | inl e ↦ subst (λ x. p x ≡ true) (some_inj.0 (rw (e, if◌then◌else◌) at h)) e
  | inr e ↦ find-passes p ls l (rw (e, if◌then◌else◌) at h)
]

first_available-IsChosen :
    (available : Level → Bool) (asked : Level)
    → IsChosen available asked (first_available available asked)
first_available-IsChosen available asked = elim (Bool-cases (available asked)) [
  | inl e ↦ rw (e, if◌then◌else◌) (e, ground (arith, eq_refl (level_name asked)))
  | inr e ↦
      let passes : Level → Bool = λ l. not (level_eq l asked) && available l in
      rw (e, if◌then◌else◌)
        (elim (Option-cases (find_if passes fallback_order)) [
          | inl h ↦
              subst (λ o. IsChosen available asked (or_unavailable o)) (sym h)
                (λ l. none_left available asked l e (none_passes passes h l))
          | inr (l, h) ↦
              subst (λ o. IsChosen available asked (or_unavailable o)) (sym h)
                (ground (arith, find-passes passes fallback_order l h), ground (arith, e))
        ])
]

-- The policy lists the level, or lists none.
abbrev pub is_allowed : Option SandboxPolicy → Level → Bool
is_allowed none l = true
is_allowed (some policy) l =
    is_empty policy.allowed_levels || any (λ k. level_eq k l) policy.allowed_levels

-- The same, when the policy may forbid the level.
abbrev pub IsPermitted : (Level → Bool) → Bool → Level → LevelResult → Type 0
IsPermitted available allowed asked (resolved l) =
    (allowed ≡ true) × (available l ≡ true) × ((level_eq l asked || not (available asked)) ≡ true)
IsPermitted available allowed asked unavailable = (allowed ≡ true) × NoneAvailable available
IsPermitted available allowed asked not_allowed = allowed ≡ false

permitted :
    (available : Level → Bool) (allowed : Bool) (asked : Level) (answer : LevelResult)
    → allowed ≡ true
    → IsChosen available asked answer
    → IsPermitted available allowed asked answer
permitted available allowed asked (resolved l) e h = (e, h.0, h.1)
permitted available allowed asked unavailable e h = (e, h)
permitted available allowed asked not_allowed e h = absurd h

resolve_allowed-IsPermitted :
    (available : Level → Bool) (allowed : List Level) (asked : Level)
    → IsPermitted available
        (is_empty allowed || any (λ l. level_eq l asked) allowed)
        asked
        (resolve_allowed available allowed asked)
resolve_allowed-IsPermitted available allowed asked =
    elim (Bool-cases (not (is_empty allowed) && not (any (λ l. level_eq l asked) allowed))) [
      | inl e ↦ rw (e, if◌then◌else◌) (ground (arith, e))
      | inr e ↦
          rw (e, if◌then◌else◌)
            (permitted available _ asked (first_available available asked) (ground (arith, e))
              (first_available-IsChosen available asked))
    ]

-- What an answer means: a forced level is the answer exactly if it is available.
abbrev pub IsAnswer : (Level → Bool) → Bool → Level → Option Level → LevelResult → Type 0
IsAnswer available allowed asked none answer = IsPermitted available allowed asked answer
IsAnswer available allowed asked (some forced) answer =
    answer ≡ (if available forced then resolved forced else unavailable)

resolve_policy-IsAnswer :
    (available : Level → Bool) (requested : Option Level) (policy : SandboxPolicy)
    → (forced : Option Level)
    → let asked = asked_level requested (some policy) in
      IsAnswer available
        (is_allowed (some policy) asked)
        asked
        forced
        (resolve_policy available requested policy forced)
resolve_policy-IsAnswer available requested policy none =
    resolve_allowed-IsPermitted available policy.allowed_levels _
resolve_policy-IsAnswer available requested policy (some forced) = refl

-- ResolveLevel answers with a forced level if it is available, and fails otherwise. When no level is
-- forced, it says that the level is not allowed exactly if the policy lists levels and not the one
-- that was asked for, or the default; a level that it answers with is available, and it is the one
-- asked for whenever that one is available; and it says that no level is available only if none is.
pub resolve_level-IsAnswer :
    (available : Level → Bool) (requested : Option Level) (policy : Option SandboxPolicy)
    → let asked = asked_level requested policy in
      IsAnswer available
        (is_allowed policy asked)
        asked
        (forced_by policy)
        (resolve_level available requested policy)
unfolding resolve_level
resolve_level-IsAnswer available requested none =
    permitted available true (level_or requested l1_gvisor) _ refl
      (first_available-IsChosen available (level_or requested l1_gvisor))
resolve_level-IsAnswer available requested (some policy) =
    resolve_policy-IsAnswer available requested policy policy.force_level
