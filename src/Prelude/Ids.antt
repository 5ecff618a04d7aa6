-- ===== src/Prelude/Ids.antt =====
-- Maps keyed by a number, as association lists.
use Prim.Native.Nat.{ℕ}
use mathlib.Core.Path.{◌≡◌, refl}
use mathlib.Core.Option.{Option, none, some}
use mathlib.Core.List.{List, [], ◌∷◌}
use native.Mathlib.Omega.{arith}
use helianthus.Prelude.Tests.{◌==◌, if◌then◌else◌}

module _ {ℓ} {V : Type ℓ} where
  unfoldable pub find_id : ℕ → List (ℕ × V) → Option V
  find_id k [] = none
  find_id k ((j, v) ∷ m) = if j == k then some v else find_id k m

  unfoldable pub put_id : ℕ → V → List (ℕ × V) → List (ℕ × V)
  put_id k v [] = (k, v) ∷ []
  put_id k v ((j, w) ∷ m) = if j == k then (j, v) ∷ m else (j, w) ∷ put_id k v m

  unfoldable pub remove_id : ℕ → List (ℕ × V) → List (ℕ × V)
  remove_id k [] = []
  remove_id k ((j, w) ∷ m) = if j == k then remove_id k m else (j, w) ∷ remove_id k m

  pub find_id-put_id :
      (k j : ℕ) (v : V) (m : List (ℕ × V))
      → find_id j (put_id k v m) ≡ (if k == j then some v else find_id j m)
  unfolding find_id put_id
  find_id-put_id k j v [] = refl
  find_id-put_id k j v ((i, w) ∷ m) = ground (arith, find_id-put_id k j v m)

  pub find_id-remove_id :
      (k j : ℕ) (m : List (ℕ × V))
      → find_id j (remove_id k m) ≡ (if k == j then none else find_id j m)
  unfolding find_id remove_id
  find_id-remove_id k j [] = ground arith
  find_id-remove_id k j ((i, w) ∷ m) = ground (arith, find_id-remove_id k j m)
