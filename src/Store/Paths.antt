-- ===== src/Store/Paths.antt =====
-- Paths through a table of transitions, as rows of state_transitions record them
-- (internal/store/store.go, internal/model/model.go).
use mathlib.Core.Path.{subst}
use durarun_operator.Prelude.{
  String, ◌≡◌, refl, sym, Bool, true, Option, none, some, List, [], ◌∷◌, ◌++◌,
}
use durarun_operator.Model.{StateTransition}

module _ {S : Type 0} (name : S → String) (can : S → S → Bool) where
  -- Each row leaves the state where the row before arrived, and the table allows it.
  abbrev pub IsPath : S → List StateTransition → S → Type 0
  IsPath s [] t = s ≡ t
  IsPath s (r ∷ rows) t =
      (m : S) × (r.from_state ≡ name s) × (r.to_state ≡ name m) × (can s m ≡ true) × IsPath m rows t

  pub IsPath-append :
      (xs ys : List StateTransition) (s m t : S)
      → IsPath s xs m
      → IsPath m ys t
      → IsPath s (xs ++ ys) t
  IsPath-append [] ys s m t h k = subst (λ z. IsPath z ys t) (sym h) k
  IsPath-append (x ∷ xs) ys s m t h k = (h.0, h.1, h.2, h.3, IsPath-append xs ys h.0 m t h.4 k)

  -- What became of the row with an id: it was never there, it was made in the first state and went
  -- on from there, or it went on from the state it had.
  abbrev pub IsTraced : S → Option S → List StateTransition → Option S → Type 0
  IsTraced first none rows none = rows ≡ []
  IsTraced first none rows (some t) = IsPath first rows t
  IsTraced first (some s) rows none = ⊥
  IsTraced first (some s) rows (some t) = IsPath s rows t

  pub IsTraced-refl : (first : S) (o : Option S) → IsTraced first o [] o
  IsTraced-refl first none = refl
  IsTraced-refl first (some s) = refl

  pub IsTraced-append :
      (first : S) (xs ys : List StateTransition) (o p q : Option S)
      → IsTraced first o xs p
      → IsTraced first p ys q
      → IsTraced first o (xs ++ ys) q
  IsTraced-append first xs ys none none q h k =
      subst (λ z. IsTraced first none (z ++ ys) q) (sym h) k
  IsTraced-append first xs ys none (some p) none h k = absurd k
  IsTraced-append first xs ys none (some p) (some q) h k = IsPath-append xs ys first p q h k
  IsTraced-append first xs ys (some o) none q h k = absurd h
  IsTraced-append first xs ys (some o) (some p) none h k = absurd k
  IsTraced-append first xs ys (some o) (some p) (some q) h k = IsPath-append xs ys o p q h k
