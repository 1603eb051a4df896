-- ===== src/Base/Decimals.antt =====
-- Floats, and the decimal columns that store them. A float is a number of 10^-12.
use sql_monitor.Base.Tests.{leb}
use Prim.Native.Nat.{ℕ, ◌+◌, ◌*◌, ◌/◌, ◌≤◌}
use mathlib.Core.Path.{◌≡◌, refl}
use native.Mathlib.Omega.{arith}

-- the units of a last place, for columns with four and with two decimals
abbrev pub four_places : ℕ
four_places = 100000000

abbrev pub two_places : ℕ
two_places = 10000000000

-- the value that a column keeps of a float, in units of its last place; PostgreSQL rounds halves up
abbrev pub numeric : ℕ → ℕ → ℕ
numeric place x = (x + place / 2) / place

-- `float` of the value of a column
abbrev pub from_numeric : ℕ → ℕ → ℕ
from_numeric place n = n * place

-- a multiple of a place, by no more than half of it away from a number
abbrev pub IsRounded : ℕ → ℕ → ℕ → Type 0
IsRounded place x y =
    ((n : ℕ) × (y ≡ n * place)) × (2 * x ≤ 2 * y + place) × (2 * y ≤ 2 * x + place)

pub four_places-IsRounded :
    (x : ℕ) → IsRounded four_places x (from_numeric four_places (numeric four_places x))
four_places-IsRounded x = ((numeric four_places x, refl), omega arith, omega arith)

pub two_places-IsRounded :
    (x : ℕ) → IsRounded two_places x (from_numeric two_places (numeric two_places x))
two_places-IsRounded x = ((numeric two_places x, refl), omega arith, omega arith)

pub leb-four_places :
    (m n : ℕ) → leb (from_numeric four_places m) (from_numeric four_places n) ≡ leb m n
leb-four_places m n = ground arith

pub leb-two_places :
    (m n : ℕ) → leb (from_numeric two_places m) (from_numeric two_places n) ≡ leb m n
leb-two_places m n = ground arith
