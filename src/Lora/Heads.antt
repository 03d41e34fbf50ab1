-- ===== src/Lora/Heads.antt =====
-- The segments of the rows whose next token is predicted in a prefill.
use mathlib.Core.List.{flatten}
use lorax.Prelude.{
  ℕ, ◌+◌, ◌<◌, ◌≤◌, ◌≡◌, arith, some, List, [], ◌∷◌, ◌++◌, append_assoc, append-nil, length,
  length-append,
}
use lorax.Lora.Load.{head_segments}
use lorax.Lora.Ranks.{get_elem?-at}

AllBelow : ℕ → List ℕ → Type 0
AllBelow hi [] = Unit
AllBelow hi (h ∷ heads) = (h < hi) × AllBelow hi heads

-- Heads of one segment, of which there is one at least.
IsWithin : ℕ → ℕ → List ℕ → Type 0
unfolding AllBelow
IsWithin lo hi [] = ⊥
IsWithin lo hi (h ∷ heads) = (lo ≤ h) × AllBelow hi (h ∷ heads)

-- The heads of each segment lie between its bounds, of which `lo` is the first.
unfoldable pub AreWithin : ℕ → List ℕ → List (List ℕ) → Type 0
unfolding IsWithin
AreWithin lo [] [] = Unit
AreWithin lo [] (g ∷ groups) = ⊥
AreWithin lo (hi ∷ bounds) [] = ⊥
AreWithin lo (hi ∷ bounds) (g ∷ groups) = IsWithin lo hi g × AreWithin hi bounds groups

-- Where the groups start and end when they are laid end to end from row `n` on.
unfoldable pub starts_from : ℕ → List (List ℕ) → List ℕ
starts_from n [] = []
starts_from n (g ∷ groups) = n ∷ starts_from (n + length g) groups

unfoldable pub ends_from : ℕ → List (List ℕ) → List ℕ
ends_from n [] = []
ends_from n (g ∷ groups) = (n + length g) ∷ ends_from (n + length g) groups

head_segments-run :
    (before : List ℕ) (hi : ℕ) (bounds starts ends : List ℕ) (end : ℕ) (heads : List ℕ)
    (groups : List (List ℕ))
    → AllBelow hi heads
    → AreWithin hi bounds groups
    → head_segments
        (before ++ hi ∷ bounds)
        (length before)
        starts
        ends
        end
        (heads ++ flatten groups)
      ≡ some (
        starts ++ starts_from (end + length heads) groups,
        ends ++ (end + length heads) ∷ ends_from (end + length heads) groups,
      )
unfolding head_segments AllBelow IsWithin AreWithin starts_from ends_from flatten
head_segments-run before hi [] starts ends end [] [] below within =
    ground (arith, append-nil starts)
head_segments-run before hi [] starts ends end [] (g ∷ groups) below within = elim within [ ]
head_segments-run before hi (b ∷ bounds) starts ends end [] [] below within = elim within [ ]
head_segments-run before hi (b ∷ bounds) starts ends end [] ([] ∷ groups) below within =
    elim within.0 [ ]
head_segments-run before hi (b ∷ bounds) starts ends end [] ((h ∷ g) ∷ groups) below
      ((above, (under, rest)), within) =
    ground (
      arith,
      above,
      get_elem?-at before hi (b ∷ bounds),
      length-append before (hi ∷ []),
      append_assoc before (hi ∷ []) (b ∷ bounds),
      append_assoc starts (end ∷ []) (starts_from (end + 1 + length g) groups),
      append_assoc ends (end ∷ []) ((end + 1 + length g) ∷ ends_from (end + 1 + length g) groups),
      head_segments-run (before ++ hi ∷ []) b bounds (starts ++ end ∷ []) (ends ++ end ∷ [])
          (end + 1) g groups rest within,
    )
head_segments-run before hi bounds starts ends end (h ∷ heads) groups (under, below) within =
    ground (
      arith,
      under,
      get_elem?-at before hi bounds,
      head_segments-run before hi bounds starts ends (end + 1) heads groups below within,
    )

-- Where the head indices of the segments of a prefill lie between the bounds of their segments,
-- and each segment has one, `BatchLoraWeights.load` gives each segment the rows of its own heads.
head_segments-flatten :
    (start hi : ℕ) (bounds : List ℕ) (g : List ℕ) (groups : List (List ℕ))
    → AreWithin start (hi ∷ bounds) (g ∷ groups)
    → head_segments (start ∷ hi ∷ bounds) 1 (0 ∷ []) [] 0 (flatten (g ∷ groups))
      ≡ some (starts_from 0 (g ∷ groups), ends_from 0 (g ∷ groups))
unfolding AreWithin IsWithin AllBelow starts_from ends_from flatten
head_segments-flatten start hi bounds [] groups within = elim within.0 [ ]
head_segments-flatten start hi bounds (h ∷ g) groups ((above, below), within) =
    head_segments-run (start ∷ []) hi bounds (0 ∷ []) [] 0 (h ∷ g) groups below within
