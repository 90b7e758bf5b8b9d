-- ===== src/Webhook/Capacity.antt =====
-- The number of active jobs under any sequence of calls (internal/webhook/capacity.go).
use durarun_operator.Prelude.{ℕ, ◌^◌, ◌<◌, pos, add_int32, ltb_ℤ, ◌≤ℤ◌, ◌≡◌, List, [], ◌∷◌, arith}
use durarun_operator.Webhook.{CapacityAdmission, admit, release}

pub data CapacityCall : Type 0 where
  admit_call release_call : CapacityCall

abbrev pub after_call : CapacityAdmission → CapacityCall → CapacityAdmission
after_call c admit_call = (admit c).1
after_call c release_call = release c

unfoldable pub after_calls : CapacityAdmission → List CapacityCall → CapacityAdmission
after_calls c [] = c
after_calls c (k ∷ ks) = after_calls (after_call c k) ks

-- The count of a controller with room for `limit` jobs is a number up to the limit.
abbrev pub InRange : ℕ → CapacityAdmission → Type 0
InRange limit c =
    (c.max_active_jobs ≡ pos limit) × (pos 0 ≤ℤ c.active_count) × (c.active_count ≤ℤ pos limit)

admit-InRange :
    (limit : ℕ) (c : CapacityAdmission)
    → limit < 2 ^ 31
    → InRange limit c
    → InRange limit (admit c).1
unfolding admit add_int32
admit-InRange limit c l h =
    (ground (arith, h.0), ground (arith, h.0, h.1, h.2), ground (arith, h.0, h.1, h.2))

release-InRange :
    (limit : ℕ) (c : CapacityAdmission)
    → limit < 2 ^ 31
    → InRange limit c
    → InRange limit (release c)
unfolding release add_int32
release-InRange limit c l h =
    (ground (arith, h.0), ground (arith, h.0, h.1, h.2), ground (arith, h.0, h.1, h.2))

-- Under any sequence of admissions and releases the count stays between 0 and the limit, which an
-- int32 holds, when it was there at the start; and the next job is admitted exactly when the count
-- is below the limit.
pub after_calls-InRange :
    (limit : ℕ) (c : CapacityAdmission) (calls : List CapacityCall)
    → limit < 2 ^ 31
    → InRange limit c
    → InRange limit (after_calls c calls)
      × ((admit (after_calls c calls)).0 ≡ ltb_ℤ (after_calls c calls).active_count (pos limit))
unfolding after_calls
after_calls-InRange limit c [] l h = (h, unfold admit in ground (arith, h.0))
after_calls-InRange limit c (admit_call ∷ ks) l h =
    after_calls-InRange limit (admit c).1 ks l (admit-InRange limit c l h)
after_calls-InRange limit c (release_call ∷ ks) l h =
    after_calls-InRange limit (release c) ks l (release-InRange limit c l h)
