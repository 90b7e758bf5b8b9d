-- ===== src/Store/View.antt =====
-- One column of a table, by the primary key (internal/store/store.go).
use mathlib.Core.Option.{map as map_option}
use durarun_operator.Prelude.{
  true, String, ◌≡◌, refl, ap, false, Option, none, some, List, [], ◌∷◌, ◌++◌, str_eq, eq_iff, any,
  if◌then◌else◌, arith, Bool-cases, inl, inr,
}
use durarun_operator.Store.Table.{select_by, update_by, select_by-append, select_by-absent}

module _ {R S : Type 0} (key : R → String) (column : R → S) where
  abbrev pub view : String → List R → Option S
  view id rows = map_option column (select_by key id rows)

  pub view-head :
      (id : String) (r : R) (rows : List R)
      → str_eq (key r) id ≡ true
      → view id (r ∷ rows) ≡ some (column r)
  view-head id r rows e = ground (arith, e)

  pub view-tail :
      (id : String) (r : R) (rows : List R)
      → str_eq (key r) id ≡ false
      → view id (r ∷ rows) ≡ view id rows
  view-tail id r rows e = ground (arith, e)

  view-other :
      (id x : String) (f : R → R)
      → ((r : R) → key (f r) ≡ key r)
      → str_eq id x ≡ false
      → (rows : List R) → view x (update_by key id f rows) ≡ view x rows
  view-other id x f same d [] = refl
  view-other id x f same d (r ∷ rows) = ground (
    arith,
    view-other id x f same d rows,
    same r,
    d,
    eq_iff (key r) id,
    eq_iff (key r) x,
    eq_iff id x,
  )

  pub view-moved :
      (id x : String) (f : R → R) (target s : S)
      → ((r : R) → key (f r) ≡ key r)
      → ((r : R) → column (f r) ≡ target)
      → (rows : List R) → view id rows ≡ some s
      → view x (update_by key id f rows) ≡ (if str_eq id x then some target else view x rows)
  view-moved id x f target s same moved [] h = absurd (ground arith)
  view-moved id x f target s same moved (r ∷ rows) h = elim (Bool-cases (str_eq (key r) id)) [
    | inl e ↦ elim (Bool-cases (str_eq id x)) [
      | inl d ↦
          ground (arith, same r, moved r, e, d, eq_iff (key r) id, eq_iff (key r) x, eq_iff id x)
      | inr d ↦ ground (
        arith,
        view-other id x f same d rows,
        same r,
        e,
        d,
        eq_iff (key r) id,
        eq_iff (key r) x,
        eq_iff id x,
      )
    ]
    | inr e ↦ ground (
      arith,
      view-moved id x f target s same moved rows (ground (arith, h, e)),
      e,
      eq_iff (key r) id,
      eq_iff (key r) x,
      eq_iff id x,
    )
  ]

  pub view-kept :
      (id x : String) (f : R → R)
      → ((r : R) → key (f r) ≡ key r)
      → ((r : R) → column (f r) ≡ column r)
      → (rows : List R) → view x (update_by key id f rows) ≡ view x rows
  view-kept id x f same kept [] = refl
  view-kept id x f same kept (r ∷ rows) =
      ground (arith, view-kept id x f same kept rows, same r, kept r)

  pub view-added :
      (x : String) (r : R) (rows : List R)
      → any (λ q. str_eq (key q) (key r)) rows ≡ false
      → view x (rows ++ r ∷ []) ≡ (if str_eq (key r) x then some (column r) else view x rows)
  view-added x r rows h =
      ground
        (arith, select_by-append key x r rows, select_by-absent key x rows, h, eq_iff (key r) x)

  pub view-none :
      (x : String) (rows : List R) → any (λ q. str_eq (key q) x) rows ≡ false → view x rows ≡ none
  view-none x rows h = ap (map_option column) (select_by-absent key x rows h)
