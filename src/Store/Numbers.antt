-- ===== src/Store/Numbers.antt =====
-- The numbers of a job's attempts (internal/store/store.go).
use mathlib.Core.Path.{subst}
use durarun_operator.Store.Table.{insert_when-ok}
use durarun_operator.Prelude.{
  Bool-cases, inl, inr, ℕ, suc, max, ◌+◌, ℤ, String, ◌≡◌, refl, sym, ap, ◌∙◌, List, [], ◌∷◌, ◌++◌,
  length, filter_if-append, str_eq, eq_refl, if◌then◌else◌, arith,
}
use durarun_operator.Model.{Attempt}
use durarun_operator.Store.{Database, Statement, Result, ok, failed, has_job, has_attempt}
use durarun_operator.Store.Attempts.{
  attempts_of, max_number, next_number, insert_attempt, new_attempt,
}
use durarun_operator.Store.Session.{
  World, Environment, Action, pure, ◌>>=◌, on_result, statement, create_attempt,
}

-- The attempts are numbered n, n + 1, … in the order of their insertion.
abbrev pub NumberedFrom : ℕ → List Attempt → Type 0
NumberedFrom n [] = Unit
NumberedFrom n (a ∷ rest) = (a.number ≡ n) × NumberedFrom (suc n) rest

numbered_max :
    (n : ℕ) (rows : List Attempt)
    → NumberedFrom (suc n) rows
    → max n (max_number rows) ≡ n + length rows
numbered_max n [] h = omega arith
numbered_max n (a ∷ rest) h = omega (arith, numbered_max (suc n) rest h.1, h.0)

numbered_snoc :
    (n : ℕ) (rows : List Attempt) (a : Attempt)
    → NumberedFrom n rows
    → a.number ≡ n + length rows
    → NumberedFrom n (rows ++ a ∷ [])
numbered_snoc n [] a h e = (omega (arith, e), tt)
numbered_snoc n (b ∷ rest) a h e = (h.0, numbered_snoc (suc n) rest a h.1 (omega (arith, e)))

-- The attempts of the job are numbered 1, 2, … in the order of their insertion.
abbrev pub IsNumbered : String → Database → Type 0
IsNumbered job_id db = NumberedFrom 1 (attempts_of job_id db)

next_is_count :
    (job_id : String) (db : Database)
    → IsNumbered job_id db
    → suc (max_number (attempts_of job_id db)) ≡ 1 + length (attempts_of job_id db)
next_is_count job_id db h = omega (arith, numbered_max 0 (attempts_of job_id db) h)

ok_injective : (a b : Attempt) → ok a ≡ ok b → a ≡ b
ok_injective a b h = ap (λ r. elim r [ ok x ↦ x | failed _ ↦ a ]) h

-- The INSERT of a row that is numbered as the query asks.
insert_attempt-IsNumbered :
    (id job_id worker_id : String) (now : ℤ) (number : ℕ) (db : Database) (made : Attempt)
    → IsNumbered job_id db
    → suc (max_number (attempts_of job_id db)) ≡ number
    → (insert_attempt id job_id number worker_id now db).0 ≡ ok made
    → (made.number ≡ 1 + length (attempts_of job_id db))
      × IsNumbered job_id (insert_attempt id job_id number worker_id now db).1
unfolding insert_attempt
insert_attempt-IsNumbered id job_id worker_id now number db made h asked e =
    let a = new_attempt id job_id number worker_id now in
    let done =
      insert_when-ok (has_attempt id db) (has_job job_id db)
        (λ d. (ok a, record d { attempts = d.attempts ++ a ∷ [] })) db made e in
    let same = ok_injective a made (sym (ap (λ r. r.0) done) ∙ e) in
    let rows =
      filter_if-append (λ x. str_eq x.job_id job_id) db.attempts (a ∷ [])
      ∙ ap (λ l. attempts_of job_id db ++ l) (rw (eq_refl job_id, if◌then◌else◌) refl) in
    let count = sym asked ∙ next_is_count job_id db h in
    (
      sym (ap (λ x. x.number) same) ∙ count,
      subst (λ r. IsNumbered job_id r) (sym (ap (λ r. r.1) done))
          (subst (NumberedFrom 1) (sym rows) (numbered_snoc 1 (attempts_of job_id db) a h count)),
    )

-- A statement that returned no error was not refused.
statement-ok :
    {A : Type 0} (env : Environment) (s : String → ℤ → Statement A) (w : World) (a : A)
    → (statement env s w).0 ≡ ok a
    → let r = s (env.uuid w.tick) (env.now w.tick) (env.others w.tick w).db in
      (r.0 ≡ ok a) × ((statement env s w).1.db ≡ r.1)
unfolding statement
statement-ok env s w a = elim (Bool-cases (env.fails w.tick)) [
  | inl e ↦ rw (e, if◌then◌else◌) (λ h. absurd (ground (arith, h)))
  | inr e ↦ rw (e, if◌then◌else◌) (λ h. (h, refl))
]

-- The INSERT of CreateAttempt follows a query that returned no error.
went_on :
    (q : Result ℕ) (k : ℕ → Action (Result Attempt)) (u : World) (made : Attempt)
    → (on_result q (λ e. pure (failed e)) k u).0 ≡ ok made
    → (n : ℕ) × (q ≡ ok n) × (on_result q (λ e. pure (failed e)) k u ≡ k n u)
unfolding on_result pure
went_on (failed e) k u made h = absurd (ground (arith, h))
went_on (ok n) k u made h = (n, refl, refl)

ok_number : (m n : ℕ) → ok m ≡ ok n → m ≡ n
ok_number m n h = ap (λ r. elim r [ ok x ↦ x | failed _ ↦ m ]) h

-- When the attempts of a job are numbered 1, 2, …, the others leave the database as it is, and
-- CreateAttempt returns an attempt, then its number is one more than their count, and the attempts
-- of the job are numbered 1, 2, … with the new one last.
pub create_attempt-IsNumbered :
    (env : Environment)
    → ((n : ℕ) (w : World) → (env.others n w).db ≡ w.db)
    → (job_id worker_id : String) (w : World) (made : Attempt) → IsNumbered job_id w.db
    → (create_attempt env job_id worker_id w).0 ≡ ok made
    → (made.number ≡ 1 + length (attempts_of job_id w.db))
      × IsNumbered job_id (create_attempt env job_id worker_id w).1.db
unfolding create_attempt ◌>>=◌
create_attempt-IsNumbered env still job_id worker_id w made h e =
    let asked = statement env (λ id now. next_number job_id) w in
    let inserts : ℕ → Action (Result Attempt) =
      λ number. statement env (λ id now. insert_attempt id job_id number worker_id now) in
    let on = went_on asked.0 inserts asked.1 made e in
    let query = statement-ok env (λ id now. next_number job_id) w on.0 on.1 in
    let same : asked.1.db ≡ w.db = query.1 ∙ still w.tick w in
    let insert =
      statement-ok env (λ id now. insert_attempt id job_id on.0 worker_id now) asked.1 made
        (sym (ap (λ r. r.0) on.2) ∙ e) in
    let before : (env.others asked.1.tick asked.1).db ≡ w.db = still _ asked.1 ∙ same in
    let number : suc (max_number (attempts_of job_id w.db)) ≡ on.0 =
      subst (λ d. suc (max_number (attempts_of job_id d)) ≡ on.0) (still w.tick w)
        (ok_number _ _ query.0) in
    let at =
      subst
        (λ d.
          (insert_attempt (env.uuid asked.1.tick) job_id on.0 worker_id (env.now asked.1.tick) d).0
          ≡ ok made)
        before insert.0 in
    let done =
      insert_attempt-IsNumbered (env.uuid asked.1.tick) job_id worker_id (env.now asked.1.tick) on.0
        w.db made h number at in
    let left =
      ap (λ r. r.1.db) on.2
      ∙ insert.1
      ∙ ap
          (λ d.
            (insert_attempt (env.uuid asked.1.tick) job_id on.0 worker_id (env.now asked.1.tick)
              d).1)
          before in
    (done.0, subst (IsNumbered job_id) (sym left) done.1)
