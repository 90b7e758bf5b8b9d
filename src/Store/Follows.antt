-- ===== src/Store/Follows.antt =====
-- Programs over the store that refine the state machine of jobs and attempts
-- (internal/store/store.go, internal/model/model.go).
use mathlib.Core.List.{append_assoc}
use durarun_operator.Prelude.{
  is_some, Option, none, some, ℕ, ℤ, String, ◌≡◌, refl, sym, ap, ◌∙◌, Bool, true, false, List, [],
  ◌∷◌, ◌++◌, if◌then◌else◌, Bool-cases, inl, inr,
}
use durarun_operator.Pool.{Manager}
use durarun_operator.Store.{Database, StoreError, Result, Statement, ok, failed}
use durarun_operator.Store.Attempts.{next_number}
use durarun_operator.Store.Evolves.{Rights, Evolves, Evolves-refl, Evolves-trans}
use durarun_operator.Store.Inserts.{insert_attempt-Evolves}
use durarun_operator.Store.Session.{
  World, Environment, Action, Line, pure, ◌>>=◌, ◌>>◌, for_each, report, on_result, on_option, when,
  at_next, statement, on_pool, create_attempt,
}

module _ (rights : Rights) where
  -- The database moved as the state machine allows, and the log only grew.
  pub record Follows (w v : World) : Type 0 where
    pub store : Evolves rights w.db v.db
    pub said : List Line
    pub lines : v.lines ≡ said ++ w.lines

  pub Follows-refl : (w : World) → Follows w w
  Follows-refl w = record { store = Evolves-refl rights w.db; said = []; lines = refl }

  pub Follows-trans : (u v w : World) → Follows u v → Follows v w → Follows u w
  Follows-trans u v w h k = record {
    store = Evolves-trans rights u.db v.db w.db h.store k.store;
    said = k.said ++ h.said;
    lines = k.lines ∙ ap (λ l. k.said ++ l) h.lines ∙ sym (append_assoc k.said h.said u.lines);
  }

  -- An action refines the state machine, from whatever world it starts.
  pub record Refines {A : Type 0} (m : Action A) : Type 0 where
    pub follows : (w : World) → Follows w (m w).1

  pub pure-Refines : {A : Type 0} (a : A) → Refines (pure a)
  unfolding pure
  pure-Refines a = record { follows = Follows-refl }

  pub bind-Refines :
      {A B : Type 0} {m : Action A} {f : A → Action B}
      → Refines m
      → ((a : A) → Refines (f a))
      → Refines (m >>= f)
  unfolding ◌>>=◌
  bind-Refines {m} {f} h k = record {
    follows = λ w. Follows-trans w (m w).1 _ (h.follows w) ((k (m w).0).follows (m w).1);
  }

  pub then-Refines :
      {B : Type 0} {m : Action Unit} {k : Action B} → Refines m → Refines k → Refines (m >> k)
  unfolding ◌>>◌
  then-Refines h k = bind-Refines h (λ _. k)

  pub if-Refines :
      {A : Type 0} (b : Bool) {m n : Action A}
      → Refines m
      → Refines n
      → Refines (if b then m else n)
  if-Refines true h k = h
  if-Refines false h k = k

  pub for_each-Refines :
      {A : Type 0} (xs : List A) {body : A → Action Unit}
      → ((x : A) → Refines (body x))
      → Refines (for_each xs body)
  unfolding for_each
  for_each-Refines [] h = pure-Refines tt
  for_each-Refines (x ∷ xs) h = then-Refines (h x) (for_each-Refines xs h)

  pub when-Refines : (b : Bool) {m : Action Unit} → Refines m → Refines (when b m)
  unfolding when
  when-Refines true h = h
  when-Refines false h = pure-Refines tt

  pub on_result-Refines :
      {A B : Type 0} (r : Result A) {bad : StoreError → Action B} {good : A → Action B}
      → ((e : StoreError) → Refines (bad e))
      → ((a : A) → Refines (good a))
      → Refines (on_result r bad good)
  unfolding on_result
  on_result-Refines (failed e) h k = h e
  on_result-Refines (ok a) h k = k a

  pub on_option-Refines :
      {A B : Type 0} (o : Option A) {absent : Action B} {present : A → Action B}
      → Refines absent
      → ((a : A) → Refines (present a))
      → Refines (on_option o absent present)
  unfolding on_option
  on_option-Refines none h k = h
  on_option-Refines (some a) h k = k a

  -- The same, where what is absent may be used.
  pub absent-Refines :
      {A B : Type 0} (o : Option A) {absent : Action B} {present : A → Action B}
      → (is_some o ≡ false → Refines absent)
      → ((a : A) → Refines (present a))
      → Refines (on_option o absent present)
  unfolding on_option
  absent-Refines none h k = h refl
  absent-Refines (some a) h k = k a

  pub report-Refines : (operation subject : String) → Refines (report operation subject)
  unfolding report
  report-Refines operation subject = record {
    follows = λ w. record { store = Evolves-refl rights w.db; said = _ ∷ []; lines = refl };
  }

  module _ (env : Environment)
      -- What the others do refines the state machine too.
      (others : (n : ℕ) (w : World) → Follows w (env.others n w)) where
    pub at_next-Follows : (w : World) → Follows w (at_next env w)
    at_next-Follows w =
        let h = others w.tick w in record { store = h.store; said = h.said; lines = h.lines }

    pub statement-Refines :
        {A : Type 0} (s : String → ℤ → Statement A)
        → ((id : String) (now : ℤ) (db : Database) → Evolves rights db (s id now db).1)
        → Refines (statement env s)
    unfolding statement
    statement-Refines s h = record {
      follows = λ w. elim (Bool-cases (env.fails w.tick)) [
        | inl e ↦ rw (e, if◌then◌else◌) (at_next-Follows w)
        | inr e ↦
            let v = at_next env w in
            rw (e, if◌then◌else◌)
              (Follows-trans w v _ (at_next-Follows w) (record {
                store = h (env.uuid w.tick) (env.now w.tick) v.db;
                said = [];
                lines = refl;
              }))
      ];
    }

    pub query-Refines :
        {A : Type 0} (f : String → ℤ → Database → Result A)
        → Refines (statement env (λ id now db. (f id now db, db)))
    query-Refines f = statement-Refines _ (λ id now db. Evolves-refl rights db)

    pub on_pool-Refines : {A : Type 0} (f : ℤ → Manager → A × Manager) → Refines (on_pool env f)
    unfolding on_pool
    on_pool-Refines f = record {
      follows = λ w.
          Follows-trans w (at_next env w) _ (at_next-Follows w)
            (record { store = Evolves-refl rights _; said = []; lines = refl });
    }

    pub create_attempt-Refines :
        (job_id worker_id : String) → Refines (create_attempt env job_id worker_id)
    unfolding create_attempt
    create_attempt-Refines job_id worker_id =
        bind-Refines (query-Refines (λ id now db. (next_number job_id db).0)) (λ n.
          on_result-Refines n (λ e. pure-Refines (failed e))
            (λ number.
              statement-Refines _
                (λ id now db. insert_attempt-Evolves rights id job_id number worker_id now db)))
