-- ===== src/Prelude/Names.antt =====
-- Texts that the program only compares and joins, as lists of character codes, and maps keyed by
-- them as association lists.
use Prim.Native.Nat.{ℕ}
use mathlib.Core.Path.{◌≡◌, refl}
use mathlib.Core.Logic.{◌≢◌}
use mathlib.Core.Bool.{Bool, true, false, ◌&&◌}
use mathlib.Core.Option.{Option, none, some}
use mathlib.Core.List.{List, [], ◌∷◌}
use native.Mathlib.Omega.{arith}
use helianthus.Prelude.Tests.{◌==◌, if◌then◌else◌}

abbrev pub Name : Type 0
Name = List ℕ

unfoldable pub same_name : Name → Name → Bool
same_name [] [] = true
same_name [] (c ∷ d) = false
same_name (c ∷ s) [] = false
same_name (c ∷ s) (d ∷ t) = c == d && same_name s t

pub same_name→eq : (s t : Name) → same_name s t ≡ true → s ≡ t
unfolding same_name
same_name→eq [] [] h = refl
same_name→eq [] (d ∷ t) h = cc
same_name→eq (c ∷ s) [] h = cc
same_name→eq (c ∷ s) (d ∷ t) h = ground (arith, same_name→eq s t)

pub same_name_self : (s : Name) → same_name s s ≡ true
unfolding same_name
same_name_self [] = refl
same_name_self (c ∷ s) = ground (arith, same_name_self s)

pub eq→same_name : (s t : Name) → s ≡ t → same_name s t ≡ true
eq→same_name s t e = rw e (same_name_self t)

pub ne→same_name : (s t : Name) → s ≢ t → same_name s t ≡ false
ne→same_name s t h = ground (arith, same_name→eq s t, h)

module _ {ℓ} {V : Type ℓ} where
  unfoldable pub find : Name → List (Name × V) → Option V
  find k [] = none
  find k ((j, v) ∷ m) = if same_name j k then some v else find k m

  -- `m[k] = v`: replaces the entry that is there, or adds one.
  unfoldable pub put : Name → V → List (Name × V) → List (Name × V)
  put k v [] = (k, v) ∷ []
  put k v ((j, w) ∷ m) = if same_name j k then (j, v) ∷ m else (j, w) ∷ put k v m

  unfoldable pub remove : Name → List (Name × V) → List (Name × V)
  remove k [] = []
  remove k ((j, w) ∷ m) = if same_name j k then remove k m else (j, w) ∷ remove k m

  pub find-put :
      (k j : Name) (v : V) (m : List (Name × V))
      → find j (put k v m) ≡ (if same_name k j then some v else find j m)
  unfolding find put
  find-put k j v [] = refl
  find-put k j v ((i, w) ∷ m) = ground (
    arith,
    find-put k j v m,
    same_name→eq i k,
    same_name→eq i j,
    same_name→eq k j,
    eq→same_name i j,
    eq→same_name k j,
    eq→same_name i k,
  )

  pub find-remove :
      (k j : Name) (m : List (Name × V))
      → find j (remove k m) ≡ (if same_name k j then none else find j m)
  unfolding find remove
  find-remove k j [] = ground arith
  find-remove k j ((i, w) ∷ m) = ground (
    arith,
    find-remove k j m,
    same_name→eq i k,
    same_name→eq i j,
    same_name→eq k j,
    eq→same_name i j,
    eq→same_name k j,
    eq→same_name i k,
  )

pub ruleset map_laws = (find-put, find-remove, same_name_self)
