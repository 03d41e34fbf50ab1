-- ===== src/Segments/Expand.antt =====
-- The segments of a list put together again.
use lorax.Prelude.{
  ℕ, zero, suc, ◌+◌, ◌-◌, ◌<◌, ◌≡◌, refl, ap, arith, List, [], ◌∷◌, ◌++◌, length, replicate,
}
use lorax.Segments.{find_segments}
use lorax.Segments.Runs.{breaks, closed_values, final, find_segments-breaks}

-- The list that has `values` between `start` and the bounds in turn.
pub expand_from : ℕ → List ℕ → List ℕ → List ℕ
expand_from start [] values = []
expand_from start (e ∷ ends) [] = []
expand_from start (e ∷ ends) (v ∷ values) = replicate (e - start) v ++ expand_from e ends values

pub expand : List ℕ × List ℕ → List ℕ
unfolding expand_from
expand ([], values) = []
expand (start ∷ ends, values) = expand_from start ends values

replicate-cons : (n v : ℕ) (xs : List ℕ) → replicate (suc n) v ++ xs ≡ replicate n v ++ v ∷ xs
replicate-cons zero v xs = refl
replicate-cons (suc n) v xs = ap (◌∷◌ v) (replicate-cons n v xs)

replicate-sub :
    (start i v : ℕ) (xs : List ℕ)
    → start < i
    → replicate (i + 1 - start) v ++ xs ≡ replicate (i - start) v ++ v ∷ xs
replicate-sub start i v xs h =
    let e : i + 1 - start ≡ suc (i - start) = omega arith in rw e (replicate-cons (i - start) v xs)

-- The run that is open began at `start`, and has `i - start` items before `xs`.
expand-breaks :
    (start previous i : ℕ) (xs : List ℕ)
    → start < i
    → expand_from start
        (breaks previous i xs ++ (i + length xs) ∷ [])
        (closed_values previous xs ++ final previous xs ∷ [])
      ≡ replicate (i - start) previous ++ xs
unfolding expand_from breaks closed_values final
expand-breaks start previous i [] h = ground arith
expand-breaks start previous i (x ∷ xs) h = ground (
  arith,
  expand-breaks start previous (i + 1) xs,
  expand-breaks i x (i + 1) xs,
  replicate-sub start i previous xs h,
)

-- Put together again, the segments that `find_segments` returns are the list it was given.
pub expand-find_segments : (xs : List ℕ) → expand (find_segments xs) ≡ xs
unfolding expand
expand-find_segments [] = unfold find_segments in refl
expand-find_segments (x ∷ xs) = rw find_segments-breaks (expand-breaks 0 x 1 xs (omega arith))
