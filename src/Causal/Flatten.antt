-- ===== src/Causal/Flatten.antt =====
-- Columns that are joined from those of several batches.
use mathlib.Core.List.{flatten}
use lorax.Prelude.{
  ℕ, ◌+◌, ◌≡◌, refl, sym, ap, ap₂, ◌∙◌, arith, max, List, [], ◌∷◌, ◌++◌, map, map-append, length,
  length-append,
}
use lorax.Flash.Filter.{maximum}
use lorax.Causal.Rows.{All, append-All}

pub maximum-append : (ns ks : List ℕ) → maximum (ns ++ ks) ≡ max (maximum ns) (maximum ks)
unfolding maximum
maximum-append [] ks = omega arith
maximum-append (n ∷ ns) ks = omega (arith, maximum-append ns ks)

module _ {B : Type 0} (P : B → Type 0) where
  pub flatten-eq :
      {X Y Z : Type 0} (f : X → Z) (f' : Y → Z) (g : B → List X) (g' : B → List Y) (bs : List B)
      → ((b : B) → P b → map f (g b) ≡ map f' (g' b))
      → All P bs
      → map f (flatten (map g bs)) ≡ map f' (flatten (map g' bs))
  unfolding All flatten
  flatten-eq f f' g g' [] same h = refl
  flatten-eq f f' g g' (b ∷ bs) same (h, hs) =
      map-append f (g b) (flatten (map g bs))
      ∙ ap₂ (◌++◌) (same b h) (flatten-eq f f' g g' bs same hs)
      ∙ sym (map-append f' (g' b) (flatten (map g' bs)))

  pub flatten-count :
      {X Y : Type 0} (g : B → List X) (g' : B → List Y) (bs : List B)
      → ((b : B) → P b → length (g b) ≡ length (g' b))
      → All P bs
      → length (flatten (map g bs)) ≡ length (flatten (map g' bs))
  unfolding All flatten
  flatten-count g g' [] same h = refl
  flatten-count g g' (b ∷ bs) same (h, hs) =
      length-append (g b) (flatten (map g bs))
      ∙ ap₂ (◌+◌) (same b h) (flatten-count g g' bs same hs)
      ∙ sym (length-append (g' b) (flatten (map g' bs)))

  pub flatten-All :
      {X : Type 0} (Q : X → Type 0) (g : B → List X) (bs : List B)
      → ((b : B) → P b → All Q (g b))
      → All P bs
      → All Q (flatten (map g bs))
  unfolding All flatten
  flatten-All Q g [] all h = tt
  flatten-All Q g (b ∷ bs) all (h, hs) =
      append-All Q (g b) (flatten (map g bs)) (all b h) (flatten-All Q g bs all hs)

pub map-flatten :
    {B X Z : Type 0} (f : X → Z) (g : B → List X) (bs : List B)
    → map f (flatten (map g bs)) ≡ flatten (map (λ b. map f (g b)) bs)
unfolding flatten
map-flatten f g [] = refl
map-flatten f g (b ∷ bs) =
    map-append f (g b) (flatten (map g bs)) ∙ ap (λ xs. map f (g b) ++ xs) (map-flatten f g bs)
