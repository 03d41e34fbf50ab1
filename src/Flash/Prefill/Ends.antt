-- ===== src/Flash/Prefill/Ends.antt =====
-- The last place of each request in what is laid out request by request for a prefill.
use lorax.Prelude.{
  ℕ, zero, suc, ◌+◌, ◌-◌, ◌<◌, ◌≡◌, refl, ap, ap₂, subst, ◌∙◌, arith, some, List, [], ◌∷◌, ◌++◌,
  map, append_assoc, length, length-append, replicate, get_elem?, gather,
}
use lorax.Tokens.Ngram.{arange, cumsum}
use lorax.Flash.Filter.{last_slots}
use lorax.Flash.Prefill.{ranges}
use lorax.Flash.Prefill.Blocks.{length-arange}

abbrev pub AllPositive : List ℕ → Type 0
AllPositive [] = Unit
AllPositive (n ∷ ns) = (0 < n) × AllPositive ns

-- The items at the last place of each part.
abbrev pub part_ends : List ℕ → List ℕ
part_ends ns = map (λ n. n - 1) (cumsum 0 ns)

pub get_elem?-append :
    {A : Type 0} (pre xs : List A) (i : ℕ) → get_elem? (pre ++ xs) (length pre + i) ≡ get_elem? xs i
get_elem?-append [] xs i = ap (get_elem? xs) (omega arith)
get_elem?-append (p ∷ pre) xs i =
    let e : suc (length pre) + i ≡ suc (length pre + i) = omega arith in
    rw e (get_elem?-append pre xs i)

pub get_elem?-arange :
    (start n i : ℕ) (rest : List ℕ)
    → i < n
    → get_elem? (arange start n ++ rest) i ≡ some (start + i)
unfolding arange
get_elem?-arange start zero i rest h = absurd (omega arith)
get_elem?-arange start (suc n) zero rest h = ground arith
get_elem?-arange start (suc n) (suc i) rest h =
    ground (arith, get_elem?-arange (start + 1) n i rest)

get_elem?-replicate :
    {A : Type 0} (a : A) (n i : ℕ) (rest : List A)
    → i < n
    → get_elem? (replicate n a ++ rest) i ≡ some a
get_elem?-replicate a zero i rest h = absurd (omega arith)
get_elem?-replicate a (suc n) zero rest h = refl
get_elem?-replicate a (suc n) (suc i) rest h = get_elem?-replicate a n i rest (omega arith)

module _ {A : Type 0} where
  -- A part for each length, and its last item.
  abbrev pub Parts : List ℕ → List (List A) → List A → Type 0
  Parts [] [] [] = Unit
  Parts (n ∷ ns) (part ∷ parts) (a ∷ lasts) =
      (length part ≡ n)
      × (0 < n)
      × ((rest : List A) → get_elem? (part ++ rest) (n - 1) ≡ some a)
      × Parts ns parts lasts
  Parts _ _ _ = ⊥

  abbrev pub join : List (List A) → List A
  join [] = []
  join (part ∷ parts) = part ++ join parts

  gather-Parts :
      (pre : List A) (ns : List ℕ) (parts : List (List A)) (lasts : List A)
      → Parts ns parts lasts
      → gather (pre ++ join parts) (map (λ n. n - 1) (cumsum (length pre) ns)) ≡ some lasts
  unfolding gather cumsum
  gather-Parts pre [] [] [] h = refl
  gather-Parts pre [] [] (a ∷ lasts) h = absurd h
  gather-Parts pre [] (p ∷ parts) lasts h = absurd h
  gather-Parts pre (n ∷ ns) [] lasts h = absurd h
  gather-Parts pre (n ∷ ns) (p ∷ parts) [] h = absurd h
  gather-Parts pre (n ∷ ns) (p ∷ parts) (a ∷ lasts) h =
      let (len, pos, get, rest) = h in
      let here : get_elem? (pre ++ (p ++ join parts)) (length pre + n - 1) ≡ some a =
        subst (λ i. get_elem? (pre ++ (p ++ join parts)) i ≡ some a) (omega arith)
          (get_elem?-append pre (p ++ join parts) (n - 1) ∙ get (join parts)) in
      let behind = gather-Parts (pre ++ p) ns parts lasts rest in
      let total : length (pre ++ p) ≡ length pre + n = omega (arith, length-append pre p) in
      ground (arith, here, behind, total, append_assoc pre p (join parts))

range_parts : List ℕ → List ℕ → List (List ℕ)
range_parts [] ns = []
range_parts (s ∷ ss) [] = []
range_parts (s ∷ ss) (n ∷ ns) = arange s n ∷ range_parts ss ns

join-range_parts : (ss ns : List ℕ) → join (range_parts ss ns) ≡ ranges ss ns
unfolding range_parts ranges
join-range_parts [] ns = refl
join-range_parts (s ∷ ss) [] = refl
join-range_parts (s ∷ ss) (n ∷ ns) = ap (λ (xs : List ℕ). arange s n ++ xs) (join-range_parts ss ns)

range_parts-Parts :
    (ss ns : List ℕ)
    → length ss ≡ length ns
    → AllPositive ns
    → Parts ns (range_parts ss ns) (last_slots ss ns)
unfolding range_parts last_slots
range_parts-Parts [] [] e h = tt
range_parts-Parts [] (n ∷ ns) e h = absurd (omega arith)
range_parts-Parts (s ∷ ss) [] e h = absurd (omega arith)
range_parts-Parts (s ∷ ss) (n ∷ ns) e h = (
  length-arange s n,
  h.0,
  λ rest.
      get_elem?-arange s n (n - 1) rest (h-below n h.0) ∙ ap (λ (i : ℕ). some i) (h-last s n h.0),
  range_parts-Parts ss ns (omega arith) h.1,
)
  where
    h-below : (n : ℕ) → 0 < n → n - 1 < n
    h-below n p = omega arith

    h-last : (s n : ℕ) → 0 < n → s + (n - 1) ≡ s + n - 1
    h-last s n p = omega arith

-- The last places of ranges that begin at `ss` and have `ns` places.
pub gather-ranges :
    (ss ns : List ℕ)
    → length ss ≡ length ns
    → AllPositive ns
    → gather (ranges ss ns) (part_ends ns) ≡ some (last_slots ss ns)
gather-ranges ss ns e h =
    subst (λ xs. gather xs (part_ends ns) ≡ some (last_slots ss ns)) (join-range_parts ss ns)
      (gather-Parts [] ns (range_parts ss ns) (last_slots ss ns) (range_parts-Parts ss ns e h))

pub last_slots-zeros : (ns : List ℕ) → last_slots (map (λ n. 0) ns) ns ≡ map (λ n. n - 1) ns
unfolding last_slots
last_slots-zeros [] = refl
last_slots-zeros (n ∷ ns) =
    ap₂ (λ (x : ℕ) (xs : List ℕ). x ∷ xs) (omega arith) (last_slots-zeros ns)
