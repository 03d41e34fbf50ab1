-- ===== src/Lora/Places.antt =====
-- Where the segments of a rank stand, and what is gathered at their places.
use lorax.Prelude.{
  ℕ, zero, suc, ◌+◌, ◌<◌, ◌≤◌, ◌≡◌, refl, subst, ◌∙◌, ap, arith, some, List, [], ◌∷◌, map, length,
  Option-cases, Bool-cases, inl, inr, lookup, get_elem?, gather, gather-cons, ◌==◌,
}
use lorax.Lora.{LoraWeights}
use lorax.Lora.Groups.{segments_of}

pub AllBelow : ℕ → List ℕ → Type 0
AllBelow n [] = Unit
AllBelow n (i ∷ is) = (i < n) × AllBelow n is

get_elem?-returns :
    {A : Type 0} (xs : List A) (i : ℕ) → i < length xs → (x : A) × (get_elem? xs i ≡ some x)
get_elem?-returns [] i h = absurd (omega (arith, h))
get_elem?-returns (x ∷ xs) zero h = (x, refl)
get_elem?-returns (x ∷ xs) (suc i) h = get_elem?-returns xs i (omega (arith, h))

pub gather-returns :
    {A : Type 0} (xs : List A) (is : List ℕ)
    → AllBelow (length xs) is
    → (ys : List A) × (gather xs is ≡ some ys)
unfolding gather AllBelow
gather-returns xs [] h = ([], refl)
gather-returns xs (i ∷ is) (h, hs) =
    let (x, e) = get_elem?-returns xs i h in
    let (ys, f) = gather-returns xs is hs in (x ∷ ys, rw (e, f) refl)

pub gather-get_elem? :
    {A : Type 0} (xs : List A) (is : List ℕ) (ys : List A) (k i : ℕ) (x : A)
    → gather xs is ≡ some ys
    → get_elem? is k ≡ some i
    → get_elem? xs i ≡ some x
    → get_elem? ys k ≡ some x
gather-get_elem? xs [] ys k i x h e f = ground (arith, e)
gather-get_elem? xs (j ∷ is) ys zero i x h e f =
    let (y, rest, p, q, r) = gather-cons xs j is ys h in ground (arith, e, f, p, r)
gather-get_elem? xs (j ∷ is) ys (suc k) i x h e f =
    let (y, rest, p, q, r) = gather-cons xs j is ys h in
    ap (λ zs. get_elem? zs (suc k)) r ∙ gather-get_elem? xs is rest k i x q e f

pub AllBelow-map : (n : ℕ) (is : List ℕ) → AllBelow n is → AllBelow (suc n) (map suc is)
unfolding AllBelow
AllBelow-map n [] h = tt
AllBelow-map n (i ∷ is) (h, hs) = (omega (arith, h), AllBelow-map n is hs)

pub AllBelow-more : (m n : ℕ) (is : List ℕ) → m ≤ n → AllBelow m is → AllBelow n is
unfolding AllBelow
AllBelow-more m n [] l h = tt
AllBelow-more m n (i ∷ is) l (h, hs) = (omega (arith, h, l), AllBelow-more m n is l hs)

module _ {Tensor Config : Type 0} where
  pub segments_of-below :
      (ws : List (ℕ × LoraWeights Tensor Config)) (rank i : ℕ) (xs : List ℕ)
      → AllBelow (i + length xs) (segments_of ws rank i xs)
  unfolding segments_of AllBelow
  segments_of-below ws rank i [] = tt
  segments_of-below ws rank i (idx ∷ xs) =
      let e : i + 1 + length xs ≡ i + suc (length xs) = omega arith in
      let rest =
        subst (λ n. AllBelow n (segments_of ws rank (i + 1) xs)) e
          (segments_of-below ws rank (i + 1) xs) in
      elim (Option-cases (lookup idx ws)) [
        | inl f ↦ rw (f, segments_of) rest
        | inr (w, f) ↦ elim (Bool-cases (w.lora_a_r == rank)) [
          | inl g ↦ rw (f, g, segments_of) (omega arith, rest)
          | inr g ↦ rw (f, g, segments_of) rest
        ]
      ]

  pub segments_of-finds :
      (ws : List (ℕ × LoraWeights Tensor Config)) (n : ℕ) (xs : List ℕ) (i a : ℕ)
      (w : LoraWeights Tensor Config)
      → get_elem? xs i ≡ some a
      → lookup a ws ≡ some w
      → (k : ℕ) × (get_elem? (segments_of ws w.lora_a_r n xs) k ≡ some (n + i))
  unfolding segments_of
  segments_of-finds ws n [] i a w h e = ground arith
  segments_of-finds ws n (idx ∷ xs) zero a w h e = (0, ground (arith, h, e))
  segments_of-finds ws n (idx ∷ xs) (suc i) a w h e =
      let (k, f) = segments_of-finds ws (n + 1) xs i a w h e in
      elim (Option-cases (lookup idx ws)) [
        | inl g ↦ (k, ground (arith, g, f))
        | inr (v, g) ↦ elim (Bool-cases (v.lora_a_r == w.lora_a_r)) [
          | inl p ↦ (suc k, ground (arith, g, p, f))
          | inr p ↦ (k, ground (arith, g, p, f))
        ]
      ]
