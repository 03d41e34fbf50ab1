-- ===== src/Lora/Locations.antt =====
-- The dict `idx_locs`: the first place among the segments of a rank where an adapter stands.
use lorax.Prelude.{
  ℕ, ◌+◌, ◌≡◌, refl, subst, arith, Option, none, some, List, [], ◌∷◌, ◌==◌, if◌then◌else◌, lookup,
  put, lookup-put, Option-cases, Bool-cases, zero, suc, inl, inr, gather, gather-cons, get_elem?,
}
use lorax.Lora.Load.{locations}

-- The first of `values`, counted from `loc`, that is `a`.
pub first_of : ℕ → ℕ → List ℕ → Option ℕ
first_of a loc [] = none
first_of a loc (v ∷ values) =
    let rest = first_of a (loc + 1) values in if v == a then some loc else rest

unfoldable pub or_else : Option ℕ → Option ℕ → Option ℕ
or_else none p = p
or_else (some x) p = some x

abbrev pub insert_first : ℕ → ℕ → List (ℕ × ℕ) → List (ℕ × ℕ)
insert_first a loc d = elim (lookup a d) [ none ↦ put a loc d | some first ↦ d ]

lookup-insert_first :
    (a b loc : ℕ) (d : List (ℕ × ℕ))
    → lookup b (insert_first a loc d) ≡ or_else (lookup b d) (if a == b then some loc else none)
unfolding or_else
lookup-insert_first a b loc d = elim (Option-cases (lookup a d)) [
  | inl e ↦ ground (arith, e, lookup-put a b loc d)
  | inr (first, e) ↦ ground (arith, e)
]

-- The values of the segments at the indices.
pub lookup-locations :
    (segment_indices : List ℕ) (loc : ℕ) (indices values : List ℕ) (d : List (ℕ × ℕ))
    → gather segment_indices indices ≡ some values
    → (idx_locs : List (ℕ × ℕ)) × (locations segment_indices loc indices d ≡ some idx_locs)
      × ((a : ℕ) → lookup a idx_locs ≡ or_else (lookup a d) (first_of a loc values))
unfolding locations gather first_of or_else
lookup-locations segment_indices loc [] values d h = (
  d,
  refl,
  λ a. elim (Option-cases (lookup a d)) [
    | inl e ↦ ground (arith, e, h)
    | inr (x, e) ↦ ground (arith, e, h)
  ],
)
lookup-locations segment_indices loc (i ∷ indices) values d h =
    let (v, rest, e, f, g) = gather-cons segment_indices i indices values h in
    let (idx_locs, l, same) =
      lookup-locations segment_indices (loc + 1) indices rest (insert_first v loc d) f in
    (idx_locs, rw e l, λ a. ground (arith, same a, g, lookup-insert_first v a loc d))

first_of-get_elem? :
    (a loc l : ℕ) (values : List ℕ)
    → first_of a loc values ≡ some l
    → (k : ℕ) × (l ≡ loc + k) × (get_elem? values k ≡ some a)
unfolding first_of
first_of-get_elem? a loc l [] h = ground arith
first_of-get_elem? a loc l (v ∷ values) h = elim (Bool-cases (v == a)) [
  | inl e ↦ (0, ground arith, ground arith)
  | inr e ↦
      let (k, f, g) = first_of-get_elem? a (loc + 1) l values (ground (arith, e)) in
      (suc k, omega arith, g)
]

pub get_elem?-first_of :
    (a l : ℕ) (values : List ℕ) → first_of a 0 values ≡ some l → get_elem? values l ≡ some a
get_elem?-first_of a l values h =
    let (k, e, f) = first_of-get_elem? a 0 l values h in
    subst (λ i. get_elem? values i ≡ some a) (omega (arith, e)) f

pub first_of-finds :
    (a loc k : ℕ) (values : List ℕ)
    → get_elem? values k ≡ some a
    → (l : ℕ) × (first_of a loc values ≡ some l)
unfolding first_of
first_of-finds a loc k [] h = ground arith
first_of-finds a loc zero (v ∷ values) h = (loc, ground arith)
first_of-finds a loc (suc k) (v ∷ values) h = elim (Bool-cases (v == a)) [
  | inl e ↦ (loc, ground (arith, e))
  | inr e ↦ let (l, f) = first_of-finds a (loc + 1) k values h in (l, ground (arith, e, f))
]
