-- ===== src/Prelude/Dicts.antt =====
-- Python's dict with integer keys, as its entries in order, and its set of integers.
use Prim.Native.Nat.{ℕ}
use mathlib.Core.Path.{◌≡◌, refl, subst}
use mathlib.Core.Bool.{Bool, true, false, ◌||◌}
use mathlib.Core.List.{List, [], ◌∷◌, ◌++◌}
use mathlib.Core.Option.{Option, none, some}
use native.Mathlib.Omega.{arith}
use lorax.Prelude.Tests.{◌==◌, if◌then◌else◌}

module _ {ℓ} {V : Type ℓ} where
  -- `d.get(k)`
  unfoldable pub lookup : ℕ → List (ℕ × V) → Option V
  lookup k [] = none
  lookup k ((j, v) ∷ entries) = if j == k then some v else lookup k entries

  -- `d[k] = v`
  unfoldable pub put : ℕ → V → List (ℕ × V) → List (ℕ × V)
  put k v [] = (k, v) ∷ []
  put k v ((j, w) ∷ entries) = if j == k then (k, v) ∷ entries else (j, w) ∷ put k v entries

  -- `d.pop(k, None)`, `del d[k]`
  unfoldable pub remove : ℕ → List (ℕ × V) → List (ℕ × V)
  remove k [] = []
  remove k ((j, w) ∷ entries) =
      let rest = remove k entries in if j == k then rest else (j, w) ∷ rest

  pub lookup-put :
      (k j : ℕ) (v : V) (d : List (ℕ × V))
      → lookup j (put k v d) ≡ (if k == j then some v else lookup j d)
  unfolding lookup put
  lookup-put k j v [] = refl
  lookup-put k j v ((i, w) ∷ d) = ground (arith, lookup-put k j v d)

  pub lookup-remove :
      (k j : ℕ) (d : List (ℕ × V)) → lookup j (remove k d) ≡ (if k == j then none else lookup j d)
  unfolding lookup remove
  lookup-remove k j [] = ground arith
  lookup-remove k j ((i, w) ∷ d) = ground (arith, lookup-remove k j d)

-- `k in s`
unfoldable pub contains : List ℕ → ℕ → Bool
contains [] k = false
contains (x ∷ xs) k = x == k || contains xs k

-- `s.add(k)`
unfoldable pub add : ℕ → List ℕ → List ℕ
unfolding contains
add k s = if contains s k then s else s ++ k ∷ []

contains-append :
    (xs ys : List ℕ) (j : ℕ) → contains (xs ++ ys) j ≡ (contains xs j || contains ys j)
unfolding contains
contains-append [] ys j = refl
contains-append (x ∷ xs) ys j = ground (arith, contains-append xs ys j)

contains-same : (k j : ℕ) (xs : List ℕ) → contains xs k ≡ true → k ≡ j → contains xs j ≡ true
contains-same k j xs h e = subst (λ i. contains xs i ≡ true) e h

pub contains-add : (k j : ℕ) (xs : List ℕ) → contains (add k xs) j ≡ (k == j || contains xs j)
unfolding add contains
contains-add k j xs = ground (arith, contains-append xs (k ∷ []) j, contains-same k j xs)
