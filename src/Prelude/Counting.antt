-- ===== src/Prelude/Counting.antt =====
-- How often a pointer stands in a list of pointers, and striking one occurrence out.
use Prim.Native.Nat.{ℕ, ◌+◌, ◌<◌}
use mathlib.Core.Path.{◌≡◌}
use mathlib.Core.Bool.{Bool, true, false}
use mathlib.Core.List.{List, [], ◌∷◌, ◌++◌}
use native.Mathlib.Omega.{arith}
use helianthus.Prelude.Lists.{length}
use helianthus.Prelude.Tests.{◌==◌, if◌then◌else◌}

abbrev pub one_if : Bool → ℕ
one_if true = 1
one_if false = 0

abbrev pub count : ℕ → List ℕ → ℕ
count ptr [] = 0
count ptr (head ∷ tail) = one_if (head == ptr) + count ptr tail

abbrev pub erase : ℕ → List ℕ → List ℕ
erase ptr [] = []
erase ptr (head ∷ tail) = if head == ptr then tail else head ∷ erase ptr tail

pub length-erase : (ptr : ℕ) (l : List ℕ) → 0 < count ptr l → length (erase ptr l) + 1 ≡ length l
length-erase ptr [] h = absurd (omega arith)
length-erase ptr (head ∷ tail) h = ground (arith, length-erase ptr tail)

pub count-erase :
    (ptr other : ℕ) (l : List ℕ)
    → 0 < count ptr l
    → count other (erase ptr l) + one_if (ptr == other) ≡ count other l
count-erase ptr other [] h = absurd (omega arith)
count-erase ptr other (head ∷ tail) h = ground (arith, count-erase ptr other tail)

pub count-append : (ptr : ℕ) (l m : List ℕ) → count ptr (l ++ m) ≡ count ptr l + count ptr m
count-append ptr (head ∷ tail) m = omega (arith, count-append ptr tail m)
count-append ptr [] m = omega arith
