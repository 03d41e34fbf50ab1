-- ===== src/Prelude/Lists.antt =====
-- Lists measured and indexed by native numbers. A tensor of one dimension is the list of its
-- entries; Python's slices `xs[:n]`, `xs[n:]`, `xs[:-1]` are `take`, `drop` and `init`.
use Prim.Native.Nat.{ℕ, zero, suc, ◌+◌, ◌-◌, min}
use mathlib.Core.Path.{◌≡◌, refl, ap, sym, ◌∙◌}
use mathlib.Core.List.{List, [], ◌∷◌, ◌++◌, map}
use mathlib.Core.Option.{Option, none, some}
use lorax.Prelude.Tests.{◌>>=◌}
use native.Mathlib.Omega.{arith}

module _ {ℓ} {A : Type ℓ} where
  abbrev pub length : List A → ℕ
  length [] = 0
  length (x ∷ xs) = suc (length xs)

  abbrev pub get_elem? : List A → ℕ → Option A
  get_elem? [] i = none
  get_elem? (x ∷ xs) zero = some x
  get_elem? (x ∷ xs) (suc i) = get_elem? xs i

  abbrev pub get_or : List A → ℕ → A → A
  get_or [] i d = d
  get_or (x ∷ xs) zero d = x
  get_or (x ∷ xs) (suc i) d = get_or xs i d

  abbrev pub take : ℕ → List A → List A
  take zero xs = []
  take (suc n) [] = []
  take (suc n) (x ∷ xs) = x ∷ take n xs

  abbrev pub drop : ℕ → List A → List A
  drop zero xs = xs
  drop (suc n) [] = []
  drop (suc n) (x ∷ xs) = drop n xs

  abbrev pub replicate : ℕ → A → List A
  replicate zero a = []
  replicate (suc n) a = a ∷ replicate n a

  -- `xs[-1]`
  abbrev pub last? : List A → Option A
  last? [] = none
  last? (x ∷ []) = some x
  last? (x ∷ y ∷ xs) = last? (y ∷ xs)

  -- `xs[:-1]`
  abbrev pub init : List A → List A
  init [] = []
  init (x ∷ []) = []
  init (x ∷ y ∷ xs) = x ∷ init (y ∷ xs)

  pub length-append : (xs ys : List A) → length (xs ++ ys) ≡ length xs + length ys
  length-append [] ys = omega arith
  length-append (x ∷ xs) ys = omega (arith, length-append xs ys)

  pub length-take : (n : ℕ) (xs : List A) → length (take n xs) ≡ min n (length xs)
  length-take zero xs = omega arith
  length-take (suc n) [] = omega arith
  length-take (suc n) (x ∷ xs) = omega (arith, length-take n xs)

  pub length-drop : (n : ℕ) (xs : List A) → length (drop n xs) ≡ length xs - n
  length-drop zero xs = omega arith
  length-drop (suc n) [] = omega arith
  length-drop (suc n) (x ∷ xs) = omega (arith, length-drop n xs)

  pub length-replicate : (n : ℕ) (a : A) → length (replicate n a) ≡ n
  length-replicate zero a = refl
  length-replicate (suc n) a = ap suc (length-replicate n a)

  drop_nil : (n : ℕ) → drop n [] ≡ []
  drop_nil zero = refl
  drop_nil (suc n) = refl

  pub drop-drop : (m n : ℕ) (t : List A) → drop (m + n) t ≡ drop n (drop m t)
  drop-drop zero n t = ap (λ k. drop k t) (omega arith)
  drop-drop (suc m) n [] = drop_nil (suc m + n) ∙ sym (drop_nil n)
  drop-drop (suc m) n (x ∷ t) =
      let e : suc m + n ≡ suc (m + n) = omega arith in ap (λ k. drop k (x ∷ t)) e ∙ drop-drop m n t

  pub take-append-drop : (n : ℕ) (xs : List A) → take n xs ++ drop n xs ≡ xs
  take-append-drop zero xs = refl
  take-append-drop (suc n) [] = refl
  take-append-drop (suc n) (x ∷ xs) = rw (take-append-drop n xs)

  pub last?-append : (xs : List A) (y : A) (ys : List A) → last? (xs ++ y ∷ ys) ≡ last? (y ∷ ys)
  last?-append [] y ys = refl
  last?-append (x ∷ []) y ys = refl
  last?-append (x ∷ z ∷ xs) y ys = last?-append (z ∷ xs) y ys

  pub init-append : (xs : List A) (y : A) (ys : List A) → init (xs ++ y ∷ ys) ≡ xs ++ init (y ∷ ys)
  init-append [] y ys = refl
  init-append (x ∷ []) y ys = refl
  init-append (x ∷ z ∷ xs) y ys = ap (◌∷◌ x) (init-append (z ∷ xs) y ys)

module _ {ℓ κ} {A : Type ℓ} {B : Type κ} where
  pub length-map : (f : A → B) (xs : List A) → length (map f xs) ≡ length xs
  length-map f [] = refl
  length-map f (x ∷ xs) = ap suc (length-map f xs)

  pub get_elem?-map :
      (f : A → B) (xs : List A) (i : ℕ) (a : A)
      → get_elem? xs i ≡ some a
      → get_elem? (map f xs) i ≡ some (f a)
  get_elem?-map f [] i a h = ground arith
  get_elem?-map f (x ∷ xs) zero a h = ground arith
  get_elem?-map f (x ∷ xs) (suc i) a h = get_elem?-map f xs i a h

-- `xs[indices]`; `none` is an IndexError.
unfoldable pub gather {ℓ} : {A : Type ℓ} → List A → List ℕ → Option (List A)
gather xs [] = some []
gather xs (i ∷ indices) = do x ← get_elem? xs i; rest ← gather xs indices; some (x ∷ rest)

module _ {ℓ} {A : Type ℓ} where
  -- What a gather of one index more has gathered.
  pub gather-cons :
      (xs : List A) (i : ℕ) (indices : List ℕ) (kept : List A)
      → gather xs (i ∷ indices) ≡ some kept
      → (x : A) × (rest : List A) × (get_elem? xs i ≡ some x)
        × (gather xs indices ≡ some rest)
        × (kept ≡ x ∷ rest)
  unfolding gather
  gather-cons xs i indices kept h = go (get_elem? xs i) (gather xs indices) refl refl h
    where
      go :
          (o : Option A) (p : Option (List A))
          → get_elem? xs i ≡ o
          → gather xs indices ≡ p
          → (o >>= λ x. p >>= λ rest. some (x ∷ rest)) ≡ some kept
          → (x : A) × (rest : List A) × (get_elem? xs i ≡ some x)
            × (gather xs indices ≡ some rest)
            × (kept ≡ x ∷ rest)
      go none p e f h' = ground arith
      go (some x) none e f h' = ground arith
      go (some x) (some rest) e f h' = (x, rest, e, f, ground arith)
