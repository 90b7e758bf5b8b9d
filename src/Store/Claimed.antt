-- ===== src/Store/Claimed.antt =====
-- ClaimScheduledAttempt and the artifacts, one call after another (internal/store/store.go).
use durarun_operator.Prelude.{
  ltb_ℤ, String, ◌≡◌, refl, sym, ap, ◌∙◌, Bool, Option, none, some, List, [], ◌∷◌, map, find_if,
  str_eq, if◌then◌else◌, arith, Bool-cases, inl, inr,
}
use mathlib.Core.Option.{map as map_option}
use durarun_operator.Model.{Attempt, attempt_new, attempt_state_eq}
use durarun_operator.Store.{Database, Result, ok, failed}
use durarun_operator.Store.Table.{order_by-map}
use durarun_operator.Store.Attempts.{claim_scheduled_attempt, claim_row, oldest_new, update_attempt}

find-map :
    (p : Attempt → Bool) (f : Attempt → Attempt) (rows : List Attempt)
    → ((a : Attempt) → p (f a) ≡ p a)
    → find_if p (map f rows) ≡ map_option f (find_if p rows)
find-map p f [] h = refl
find-map p f (a ∷ rows) h = ground (arith, find-map p f rows h, h a)

assign : String → String → Attempt → Attempt
assign id worker a = if str_eq a.id id then record a { worker_id = worker } else a

assign_keeps :
    (id worker : String) (a : Attempt)
    → ((assign id worker a).id ≡ a.id)
      × ((assign id worker a).state ≡ a.state)
      × ((assign id worker a).started_at ≡ a.started_at)
unfolding assign
assign_keeps id worker a = elim (Bool-cases (str_eq a.id id)) [
  | inl e ↦ rw (e, if◌then◌else◌) (refl, refl, refl)
  | inr e ↦ rw (e, if◌then◌else◌) (refl, refl, refl)
]

-- A claim leaves the attempt the oldest one in state New.
oldest-claimed :
    (id worker : String) (db : Database)
    → oldest_new (update_attempt id (λ r. record r { worker_id = worker }) db)
      ≡ map_option (assign id worker) (oldest_new db)
unfolding assign
oldest-claimed id worker db =
    ap (find_if (λ a. attempt_state_eq a.state attempt_new)) (
      order_by-map (λ a b. ltb_ℤ a.started_at b.started_at) (assign id worker) db.attempts
        (λ a b.
          ap (λ t. ltb_ℤ t (assign id worker b).started_at) (assign_keeps id worker a).2
          ∙ ap (λ t. ltb_ℤ a.started_at t) (assign_keeps id worker b).2))
    ∙ find-map (λ a. attempt_state_eq a.state attempt_new) (assign id worker) _
        (λ a. ap (λ s. attempt_state_eq s attempt_new) (assign_keeps id worker a).1)

-- The id of the attempt that a claim returned.
abbrev pub claimed_id : Result (Option Attempt) → Option String
claimed_id (failed e) = none
claimed_id (ok none) = none
claimed_id (ok (some a)) = some a.id

claim_row-id :
    (worker : String) (o : Option Attempt) (db : Database)
    → claimed_id (claim_row worker o db).0 ≡ map_option (λ a. a.id) o
unfolding claim_row
claim_row-id worker none db = refl
claim_row-id worker (some a) db = refl

map-assign :
    (id worker : String) (o : Option Attempt)
    → map_option (λ a. a.id) (map_option (assign id worker) o) ≡ map_option (λ a. a.id) o
map-assign id worker none = refl
map-assign id worker (some a) = ap some (assign_keeps id worker a).0

claim_row-again :
    (worker : String) (o : Option Attempt) (db : Database)
    → oldest_new db ≡ o
    → map_option (λ a. a.id) (oldest_new (claim_row worker o db).1) ≡ map_option (λ a. a.id) o
unfolding claim_row
claim_row-again worker none db e = ap (map_option (λ a. a.id)) e
claim_row-again worker (some a) db e =
    ap (map_option (λ a. a.id)) (oldest-claimed a.id worker db)
    ∙ map-assign a.id worker (oldest_new db)
    ∙ ap (map_option (λ a. a.id)) e

-- Where rows of the same started_at keep their order, a claim that follows another one, with nothing
-- between them, returns the same attempt, whose state is still New.
pub claimed_again :
    (first second : String) (db : Database)
    → claimed_id (claim_scheduled_attempt second (claim_scheduled_attempt first db).1).0
      ≡ claimed_id (claim_scheduled_attempt first db).0
unfolding claim_scheduled_attempt
claimed_again first second db =
    claim_row-id second _ _
    ∙ claim_row-again first (oldest_new db) db refl
    ∙ sym (claim_row-id first (oldest_new db) db)
