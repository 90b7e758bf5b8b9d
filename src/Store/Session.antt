-- ===== src/Store/Session.antt =====
-- How the processes of the service use the store (internal/store/store.go): one statement after
-- another, each of which the database may refuse, while other goroutines and processes go on.
use durarun_operator.Prelude.{
  true, false, Option, none, some, ℕ, suc, ℤ, String, Bool, List, [], ◌∷◌, if◌then◌else◌,
}
use durarun_operator.Store.{Database, StoreError, Result, Statement, ok, failed, database_error}
use durarun_operator.Model.{Attempt}
use durarun_operator.Store.Attempts.{next_number, insert_attempt}
use durarun_operator.Pool.{Manager}

-- A line of the log that reports an error: what failed, and for which job or attempt.
pub record Line : Type 0 where
  pub operation : String
  pub subject : String

pub record World : Type 0 where
  pub db : Database
  pub pool : Manager
  pub lines : List Line
  pub tick : ℕ

-- What the service does not decide at its n-th step: the time, the id that is made, whether the
-- database refuses, and what the others did before it.
pub record Environment : Type 0 where
  pub now : ℕ → ℤ
  pub uuid : ℕ → String
  pub fails : ℕ → Bool
  pub others : ℕ → World → World

abbrev pub Action : Type 0 → Type 0
Action A = World → A × World

unfoldable pub pure : {A : Type 0} → A → Action A
pure a w = (a, w)

infixl 5 ◌>>=◌ ◌>>◌
unfoldable pub ◌>>=◌ : {A B : Type 0} → Action A → (A → Action B) → Action B
◌>>=◌ m f w = let (a, v) = m w in f a v

unfoldable pub ◌>>◌ : {A B : Type 0} → Action A → Action B → Action B
m >> k = m >>= λ _. k

-- for _, x := range xs
unfoldable pub for_each : {A : Type 0} → List A → (A → Action Unit) → Action Unit
for_each [] body = pure tt
for_each (x ∷ xs) body = body x >> for_each xs body

-- A call's error, and what follows it: `if err != nil { … }`.
unfoldable pub on_result :
    {A B : Type 0} → Result A → (StoreError → Action B) → (A → Action B) → Action B
on_result (failed e) bad good = bad e
on_result (ok a) bad good = good a

-- A pointer that may be nil, and what follows it.
unfoldable pub on_option : {A B : Type 0} → Option A → Action B → (A → Action B) → Action B
on_option none absent present = absent
on_option (some a) absent present = present a

-- A step that is left out, by `continue` or `return`, when the condition fails.
unfoldable pub when : Bool → Action Unit → Action Unit
when true m = m
when false m = pure tt

-- log.Printf of an error
unfoldable pub report : String → String → Action Unit
report operation subject w =
    (tt, record w { lines = record { operation = operation; subject = subject } ∷ w.lines })

module _ (env : Environment) where
  -- The world when the next step begins.
  abbrev pub at_next : World → World
  at_next w = record (env.others w.tick w) { tick = suc w.tick }

  -- One statement or transaction; it is given an id to use and the time.
  unfoldable pub statement : {A : Type 0} → (String → ℤ → Statement A) → Action (Result A)
  statement s w =
      let v = at_next w in
      if env.fails w.tick
      then (failed database_error, v)
      else let r = s (env.uuid w.tick) (env.now w.tick) v.db in (r.0, record v { db = r.1 })

  -- One operation of the pool manager, under its mutex.
  unfoldable pub on_pool : {A : Type 0} → (ℤ → Manager → A × Manager) → Action A
  on_pool f w =
      let v = at_next w in let r = f (env.now w.tick) v.pool in (r.0, record v { pool = r.1 })

  -- Store.CreateAttempt: a query and an INSERT, which are no transaction.
  unfoldable pub create_attempt : String → String → Action (Result Attempt)
  create_attempt job_id worker_id = do
    n ← statement (λ id now. next_number job_id)
    on_result n (λ e. pure (failed e))
        λ number. statement (λ id now. insert_attempt id job_id number worker_id now)
