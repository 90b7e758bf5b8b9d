-- ===== src/Prelude/Show.antt =====
-- The decimal text of a number, as fmt prints it with %d.
use Prim.Native.Nat.{ℕ, zero, suc, ◌/◌, ◌%◌}
use Prim.Native.Char.{Char}
use Prim.Native.String.{String}
use mathlib.Core.Path.{◌≡◌, refl}
use durarun_operator.Prelude.Tests.{ltb, ◌==◌, if◌then◌else◌}
use durarun_operator.Prelude.Int.{ℤ, pos, negsuc}

digit : ℕ → Char
digit n =
    if n == 0
    then "0"
    else if n == 1
    then "1"
    else if n == 2
    then "2"
    else if n == 3
    then "3"
    else if n == 4
    then "4"
    else if n == 5
    then "5"
    else if n == 6
    then "6"
    else if n == 7
    then "7"
    else if n == 8
    then "8"
    else "9"

show_from : ℕ → ℕ → String → String
unfolding digit
show_from zero n acc = acc
show_from (suc fuel) n acc =
    let acc' = String.◌∷◌ (digit (n % 10)) acc in
    let rest = show_from fuel (n / 10) acc' in if ltb n 10 then acc' else rest

-- Fuel: a number has at most as many digits as its value plus one.
unfoldable pub show_ℕ : ℕ → String
unfolding show_from
show_ℕ n = show_from (suc n) n ""

unfoldable pub show_ℤ : ℤ → String
unfolding show_ℕ
show_ℤ (pos n) = show_ℕ n
show_ℤ (negsuc n) = String.◌∷◌ "-" (show_ℕ (suc n))

show_some : show_ℤ (pos 2047) ≡ "2047"
unfolding show_ℤ
show_some = refl

show_negative : show_ℤ (negsuc 41) ≡ "-42"
unfolding show_ℤ
show_negative = refl
