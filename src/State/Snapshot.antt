-- ===== src/State/Snapshot.antt =====
-- internal/state/invariants.go: the check of a job's attempts at one moment.
use durarun_operator.Prelude.{
  ℕ, ◌≤◌, ℤ, ◌<ℤ◌, leb_ℤ, String, ◌≡◌, refl, ◌↔◌, Bool, not, Option, none, some, List, [], ◌∷◌,
  arith, ltb, str_eq, eq_iff, All, count_if, if◌then◌else◌,
}

pub record AttemptSnapshot : Type 0 where
  pub uid : String
  pub ordinal : ℤ
  pub job_ref_uid : String
  pub terminal : Bool

-- The fields `Conditions` and `ActiveAttempt` are not read by the check.
pub record JobSnapshot : Type 0 where
  pub job_uid : String
  pub attempts : List AttemptSnapshot

pub data SnapshotError : Type 0 where
  too_many_active : ℕ → SnapshotError
  ordinal_not_greater : ℤ → ℤ → SnapshotError
  uid_mismatch : String → SnapshotError

abbrev pub is_active : AttemptSnapshot → Bool
is_active a = not a.terminal

-- The loop from index 1 on, with the element before.
check_ordinals : AttemptSnapshot → List AttemptSnapshot → Option SnapshotError
check_ordinals prev [] = none
check_ordinals prev (a ∷ rest) =
    let later = check_ordinals a rest in
    if leb_ℤ a.ordinal prev.ordinal
    then some (ordinal_not_greater a.ordinal prev.ordinal)
    else later

check_all_ordinals : List AttemptSnapshot → Option SnapshotError
unfolding check_ordinals
check_all_ordinals [] = none
check_all_ordinals (a ∷ rest) = check_ordinals a rest

check_uids : String → List AttemptSnapshot → Option SnapshotError
check_uids uid [] = none
check_uids uid (a ∷ rest) =
    let later = check_uids uid rest in
    if str_eq a.job_ref_uid uid then later else some (uid_mismatch a.job_ref_uid)

abbrev or_else : Option SnapshotError → Option SnapshotError → Option SnapshotError
or_else none e = e
or_else (some x) e = some x

-- ValidateSnapshot; `none` is the nil error.
unfoldable pub validate_snapshot : JobSnapshot → Option SnapshotError
unfolding check_all_ordinals check_uids
validate_snapshot snap =
    let active_count = count_if is_active snap.attempts in
    if ltb 1 active_count
    then some (too_many_active active_count)
    else or_else (check_all_ordinals snap.attempts) (check_uids snap.job_uid snap.attempts)

abbrev pub Increasing : List AttemptSnapshot → Type 0
Increasing [] = Unit
Increasing (a ∷ []) = Unit
Increasing (a ∷ b ∷ rest) = (a.ordinal <ℤ b.ordinal) × Increasing (b ∷ rest)

-- What the three invariants of the file ask for.
abbrev pub IsConsistent : JobSnapshot → Type 0
IsConsistent snap =
    (count_if is_active snap.attempts ≤ 1)
    × Increasing snap.attempts
    × All (λ a. a.job_ref_uid ≡ snap.job_uid) snap.attempts

check_ordinals_sound :
    (a : AttemptSnapshot) (rest : List AttemptSnapshot)
    → check_ordinals a rest ≡ none
    → Increasing (a ∷ rest)
unfolding check_ordinals
check_ordinals_sound a [] h = tt
check_ordinals_sound a (b ∷ rest) h = (ground arith, check_ordinals_sound b rest (ground arith))

check_ordinals_complete :
    (a : AttemptSnapshot) (rest : List AttemptSnapshot)
    → Increasing (a ∷ rest)
    → check_ordinals a rest ≡ none
unfolding check_ordinals
check_ordinals_complete a [] h = refl
check_ordinals_complete a (b ∷ rest) h = ground (arith, check_ordinals_complete b rest h.1)

check_all_ordinals_iff : (l : List AttemptSnapshot) → (check_all_ordinals l ≡ none) ↔ Increasing l
unfolding check_all_ordinals
check_all_ordinals_iff [] = (λ h. tt, λ h. refl)
check_all_ordinals_iff (a ∷ rest) = (check_ordinals_sound a rest, check_ordinals_complete a rest)

check_uids_iff :
    (uid : String) (l : List AttemptSnapshot)
    → (check_uids uid l ≡ none) ↔ All (λ a. a.job_ref_uid ≡ uid) l
unfolding check_uids
check_uids_iff uid [] = (λ h. tt, λ h. refl)
check_uids_iff uid (a ∷ rest) = (
  λ h. (ground (arith, eq_iff a.job_ref_uid uid), (check_uids_iff uid rest).0 (ground arith)),
  λ h. ground (arith, eq_iff a.job_ref_uid uid, (check_uids_iff uid rest).1 h.1),
)

-- ValidateSnapshot returns no error exactly when at most one attempt is not terminal, the ordinals
-- increase strictly along the list, and every attempt refers to the job's UID.
pub validate_snapshot_iff :
    (snap : JobSnapshot) → (validate_snapshot snap ≡ none) ↔ IsConsistent snap
unfolding validate_snapshot
validate_snapshot_iff snap = (
  λ h. (
    ground arith,
    (check_all_ordinals_iff snap.attempts).0 (ground arith),
    (check_uids_iff snap.job_uid snap.attempts).0 (ground arith),
  ),
  λ h. ground (
    arith,
    (check_all_ordinals_iff snap.attempts).1 h.1,
    (check_uids_iff snap.job_uid snap.attempts).1 h.2,
  ),
)
