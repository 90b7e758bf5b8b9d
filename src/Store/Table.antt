-- ===== src/Store/Table.antt =====
-- What SELECT, UPDATE and ORDER BY do to a list of rows (internal/store/store.go).
use mathlib.Core.Path.{subst}
use mathlib.Core.Logic.Or
use mathlib.Core.List.{Mem, mem-cons}
use mathlib.Core.Option.{map as map_option}
use durarun_operator.Prelude.{
  true, String, ◌≡◌, refl, sym, ap, ◌∙◌, Bool, false, Option, none, some, List, [], ◌∷◌, ◌++◌, map,
  find_if, str_eq, eq_iff, if◌then◌else◌, All, any, ◌||◌, arith, Bool-cases, inl, inr,
}
use durarun_operator.Store.{Database, Statement, ok, insert_when}

module _ {R : Type 0} where
  insert_by : (R → R → Bool) → R → List R → List R
  insert_by before x [] = x ∷ []
  insert_by before x (y ∷ ys) =
      let later = insert_by before x ys in if before y x then y ∷ later else x ∷ y ∷ ys

  -- ORDER BY; equal rows stay in the order of their insertion.
  unfoldable pub order_by : (R → R → Bool) → List R → List R
  unfolding insert_by
  order_by before [] = []
  order_by before (x ∷ xs) = insert_by before x (order_by before xs)

  insert_by-All :
      (P : R → Type 0) (before : R → R → Bool) (x : R) (ys : List R)
      → P x
      → All P ys
      → All P (insert_by before x ys)
  unfolding insert_by
  insert_by-All P before x [] p h = (p, tt)
  insert_by-All P before x (y ∷ ys) p h = elim (Bool-cases (before y x)) [
    | inl e ↦ rw (e, if◌then◌else◌) (h.0, insert_by-All P before x ys p h.1)
    | inr e ↦ rw (e, if◌then◌else◌) (p, h)
  ]

  pub order_by-All :
      (P : R → Type 0) (before : R → R → Bool) (xs : List R) → All P xs → All P (order_by before xs)
  unfolding order_by
  order_by-All P before [] h = tt
  order_by-All P before (x ∷ xs) h =
      insert_by-All P before x (order_by before xs) h.0 (order_by-All P before xs h.1)

  insert_by-any :
      (p : R → Bool) (before : R → R → Bool) (x : R) (ys : List R)
      → any p (insert_by before x ys) ≡ (p x || any p ys)
  unfolding insert_by
  insert_by-any p before x [] = refl
  insert_by-any p before x (y ∷ ys) = ground (arith, insert_by-any p before x ys)

  pub order_by-any :
      (p : R → Bool) (before : R → R → Bool) (xs : List R) → any p (order_by before xs) ≡ any p xs
  unfolding order_by
  order_by-any p before [] = refl
  order_by-any p before (x ∷ xs) =
      insert_by-any p before x (order_by before xs) ∙ ap (λ b. p x || b) (order_by-any p before xs)

  insert_by-map :
      (before : R → R → Bool) (f : R → R) (x : R) (ys : List R)
      → ((a b : R) → before (f a) (f b) ≡ before a b)
      → insert_by before (f x) (map f ys) ≡ map f (insert_by before x ys)
  unfolding insert_by
  insert_by-map before f x [] h = refl
  insert_by-map before f x (y ∷ ys) h = ground (arith, insert_by-map before f x ys h, h y x)

  -- What does not touch the order passes through it.
  pub order_by-map :
      (before : R → R → Bool) (f : R → R) (xs : List R)
      → ((a b : R) → before (f a) (f b) ≡ before a b)
      → order_by before (map f xs) ≡ map f (order_by before xs)
  unfolding order_by
  order_by-map before f [] h = refl
  order_by-map before f (x ∷ xs) h =
      ap (insert_by before (f x)) (order_by-map before f xs h)
      ∙ insert_by-map before f x (order_by before xs) h

  -- LIMIT 1
  abbrev pub first_row : List R → Option R
  first_row [] = none
  first_row (r ∷ rows) = some r

  module _ (before : R → R → Bool) where
    -- One of the rows, and no row comes before it; or there are no rows.
    abbrev pub IsFirst : Option R → List R → Type 0
    IsFirst none rows = rows ≡ []
    IsFirst (some r) rows = Mem r rows × All (λ q. before q r ≡ false) rows

    module _ (asym : (a b : R) → before a b ≡ true → before b a ≡ false)
        (step : (a b c : R) → before c b ≡ false → before b a ≡ false → before c a ≡ false) where
      not_before_self : (x : R) → before x x ≡ false
      not_before_self x = elim (Bool-cases (before x x)) [ inl e ↦ asym x x e | inr e ↦ e ]

      none_before :
          (x y : R) (rows : List R)
          → before y x ≡ false
          → All (λ q. before q y ≡ false) rows
          → All (λ q. before q x ≡ false) rows
      none_before x y [] e h = tt
      none_before x y (q ∷ rows) e h = (step x y q h.0 e, none_before x y rows e h.1)

      insert_by-IsFirst :
          (x : R) (ys rows : List R)
          → IsFirst (first_row ys) rows
          → IsFirst (first_row (insert_by before x ys)) (x ∷ rows)
      unfolding insert_by
      insert_by-IsFirst x [] rows h = (
        mem-cons.1 (Or.inl refl),
        (not_before_self x, subst (All (λ q. before q x ≡ false)) (sym h) tt),
      )
      insert_by-IsFirst x (y ∷ ys) rows h = elim (Bool-cases (before y x)) [
        | inl e ↦ rw (e, if◌then◌else◌) (mem-cons.1 (Or.inr h.0), (asym y x e, h.1))
        | inr e ↦
            rw (e, if◌then◌else◌)
              (mem-cons.1 (Or.inl refl), (not_before_self x, none_before x y rows e h.1))
      ]

      -- The first row of ORDER BY … LIMIT 1.
      pub order_by-IsFirst : (xs : List R) → IsFirst (first_row (order_by before xs)) xs
      unfolding order_by
      order_by-IsFirst [] = refl
      order_by-IsFirst (x ∷ xs) = insert_by-IsFirst x (order_by before xs) xs (order_by-IsFirst xs)

  module _ (key : R → String) where
    -- SELECT … WHERE id = …
    abbrev pub select_by : String → List R → Option R
    select_by id rows = find_if (λ r. str_eq (key r) id) rows

    -- UPDATE … WHERE id = …
    abbrev pub update_by : String → (R → R) → List R → List R
    update_by id f rows = map (λ r. if str_eq (key r) id then f r else r) rows

    pub select_by-update_by :
        (id x : String) (f : R → R)
        → ((r : R) → key (f r) ≡ key r)
        → (rows : List R)
        → select_by x (update_by id f rows)
          ≡ (if str_eq id x then map_option f (select_by x rows) else select_by x rows)
    select_by-update_by id x f same [] = ground arith
    select_by-update_by id x f same (r ∷ rows) = ground (
      arith,
      select_by-update_by id x f same rows,
      same r,
      eq_iff (key r) id,
      eq_iff (key r) x,
      eq_iff id x,
      eq_iff x id,
    )

    pub select_by-append :
        (x : String) (r : R) (rows : List R)
        → select_by x (rows ++ r ∷ []) ≡ (
            if any (λ q. str_eq (key q) x) rows
            then select_by x rows
            else if str_eq (key r) x
            then some r
            else none)
    select_by-append x r [] = ground arith
    select_by-append x r (q ∷ rows) = ground (arith, select_by-append x r rows)

    pub select_by-absent :
        (x : String) (rows : List R)
        → any (λ q. str_eq (key q) x) rows ≡ false
        → select_by x rows ≡ none
    select_by-absent x [] h = refl
    select_by-absent x (q ∷ rows) h = ground (arith, select_by-absent x rows)

-- An INSERT that returned a row was made.
pub insert_when-ok :
    {A : Type 0} (taken refers : Bool) (insert : Statement A) (db : Database) (a : A)
    → (insert_when taken refers insert db).0 ≡ ok a
    → insert_when taken refers insert db ≡ insert db
insert_when-ok true refers insert db a h = absurd (ground (arith, h))
insert_when-ok false true insert db a h = refl
insert_when-ok false false insert db a h = absurd (ground (arith, h))
