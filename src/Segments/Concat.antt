-- ===== src/Segments/Concat.antt =====
-- The builder joins the segments of batches into the segments of the joined batch.
use mathlib.Core.List.{flatten}
use lorax.Prelude.{
  ℕ, ◌+◌, ◌≡◌, refl, ap, subst, arith, some, List, [], ◌∷◌, ◌++◌, ◌==◌, if◌then◌else◌, length,
  length-append, append_assoc, append-nil, Bool-cases, inl, inr, init, last?-append, init-append,
  drop, map-append, ◌>>=◌,
}
use lorax.Segments.{
  find_segments, SegmentConcatBuilder, empty_builder, offset_segments, trim_last, merge_segments,
  concat, concat_all, torch_concat, build,
}
use lorax.Segments.Runs.{
  breaks, closed_values, final, find_segments-breaks, values_head, breaks-append,
  closed_values-append, final-append, breaks-add,
}

-- The builder holds the segments of `x ∷ xs`; the bound at the end, which a merge takes away,
-- is the last entry of the last tensor.
pub record Holds (b : SegmentConcatBuilder) (x : ℕ) (xs : List ℕ) : Type 0 where
  pub front : List (List ℕ)
  pub body : List ℕ
  pub tensors : b.adapter_segment_tensors ≡ front ++ (body ++ (1 + length xs) ∷ []) ∷ []
  pub bounds : flatten front ++ body ≡ 0 ∷ breaks x 1 xs
  pub indices : b.adapter_segment_indices ≡ closed_values x xs ++ final x xs ∷ []

trim_last-append :
    (front : List (List ℕ)) (t : List ℕ) → trim_last (front ++ t ∷ []) ≡ some (front ++ init t ∷ [])
unfolding trim_last
trim_last-append [] t = refl
trim_last-append (u ∷ []) t = refl
trim_last-append (u ∷ v ∷ front) t = rw (trim_last-append (v ∷ front) t)

flatten-snoc : (xss : List (List ℕ)) (ys : List ℕ) → flatten (xss ++ ys ∷ []) ≡ flatten xss ++ ys
unfolding flatten
flatten-snoc [] ys = append-nil ys
flatten-snoc (xs ∷ xss) ys = ground (arith, flatten-snoc xss ys, append_assoc xs (flatten xss) ys)

first_Holds :
    (x : ℕ) (xs : List ℕ)
    → (b : SegmentConcatBuilder) × (concat empty_builder (find_segments (x ∷ xs)) ≡ some b)
      × Holds b x xs
unfolding concat offset_segments merge_segments flatten
first_Holds x xs = rw find_segments-breaks (
  record {
    adapter_segment_indices = closed_values x xs ++ final x xs ∷ [];
    adapter_segment_tensors = (0 ∷ (breaks x 1 xs ++ (1 + length xs) ∷ [])) ∷ [];
  },
  refl,
  record { front = []; body = 0 ∷ breaks x 1 xs; tensors = refl; bounds = refl; indices = refl },
)

module _ (b : SegmentConcatBuilder) (x : ℕ) (xs : List ℕ) (h : Holds b x xs) (y : ℕ)
    (ys : List ℕ) where
  -- The bounds of the new batch, moved behind the items that are there.
  abbrev offset : List ℕ
  offset = breaks y (1 + (1 + length xs)) ys ++ (1 + length ys + (1 + length xs)) ∷ []

  abbrev values : List ℕ
  values = closed_values y ys ++ final y ys ∷ []

  offset_segments-eq :
      offset_segments b.adapter_segment_tensors (0 ∷ (breaks y 1 ys ++ (1 + length ys) ∷ []))
      ≡ some offset
  unfolding offset_segments
  offset_segments-eq = ground (
    arith,
    last?-append h.front (h.body ++ (1 + length xs) ∷ []) [],
    last?-append h.body (1 + length xs) [],
    map-append (λ s. s + (1 + length xs)) (breaks y 1 ys) ((1 + length ys) ∷ []),
    breaks-add y (1 + length xs) 1 ys,
  )

  merge_segments-eq :
      merge_segments b values
      ≡ some (
          if final x xs == y
          then (h.front ++ (h.body ∷ []), drop 1 values)
          else (b.adapter_segment_tensors, values))
  unfolding merge_segments
  merge_segments-eq = rw values_head (
      ground (
        arith,
        last?-append (closed_values x xs) (final x xs) [],
        trim_last-append h.front (h.body ++ (1 + length xs) ∷ []),
        init-append h.body (1 + length xs) [],
        append-nil h.body,
      ))

  abbrev joined : SegmentConcatBuilder
  joined =
      if final x xs == y
      then record {
        adapter_segment_indices = b.adapter_segment_indices ++ drop 1 values;
        adapter_segment_tensors = (h.front ++ h.body ∷ []) ++ offset ∷ [];
      }
      else record {
        adapter_segment_indices = b.adapter_segment_indices ++ values;
        adapter_segment_tensors = b.adapter_segment_tensors ++ offset ∷ [];
      }

  concat-eq : concat b (find_segments (y ∷ ys)) ≡ some joined
  unfolding concat
  concat-eq = rw (find_segments-breaks, offset_segments-eq, merge_segments-eq) (ground arith)

  bound : 1 + length ys + (1 + length xs) ≡ 1 + length (xs ++ y ∷ ys)
  bound = omega (arith, length-append xs (y ∷ ys))

  joined-Holds : Holds joined x (xs ++ y ∷ ys)
  joined-Holds = elim (Bool-cases (final x xs == y)) [
    | inl e ↦ rw e (record {
      front = h.front ++ h.body ∷ [];
      body = breaks y (1 + (1 + length xs)) ys;
      tensors = ground (arith, bound);
      bounds = ground (arith, flatten-snoc h.front h.body, breaks-append x 1 xs y ys);
      indices = ground (
        arith,
        values_head y ys,
        append_assoc (closed_values x xs) (final x xs ∷ []) (drop 1 values),
        append_assoc (closed_values x xs) (closed_values y ys) (final y ys ∷ []),
        closed_values-append x xs y ys,
        final-append x xs y ys,
      );
    })
    | inr e ↦ rw e (record {
      front = h.front ++ (h.body ++ (1 + length xs) ∷ []) ∷ [];
      body = breaks y (1 + (1 + length xs)) ys;
      tensors = ground (arith, bound);
      bounds = ground (
        arith,
        flatten-snoc h.front (h.body ++ (1 + length xs) ∷ []),
        breaks-append x 1 xs y ys,
        append_assoc (flatten h.front) h.body ((1 + length xs) ∷ []),
        append_assoc (flatten h.front ++ h.body) ((1 + length xs) ∷ [])
            (breaks y (1 + (1 + length xs)) ys),
      );
      indices = ground (
        arith,
        append_assoc (closed_values x xs) (final x xs ∷ []) values,
        append_assoc (closed_values x xs) (final x xs ∷ closed_values y ys) (final y ys ∷ []),
        closed_values-append x xs y ys,
        final-append x xs y ys,
      );
    })
  ]

-- Batches of at least one token, as the first index and the others.
abbrev pub tokens : List (ℕ × List ℕ) → List ℕ
tokens [] = []
tokens ((y, ys) ∷ batches) = y ∷ ys ++ tokens batches

abbrev pub segments_of : List (ℕ × List ℕ) → List (List ℕ × List ℕ)
segments_of [] = []
segments_of ((y, ys) ∷ batches) = find_segments (y ∷ ys) ∷ segments_of batches

concat_all-Holds :
    (b : SegmentConcatBuilder) (x : ℕ) (xs : List ℕ) (batches : List (ℕ × List ℕ))
    → Holds b x xs
    → (b' : SegmentConcatBuilder) × (concat_all b (segments_of batches) ≡ some b')
      × Holds b' x (xs ++ tokens batches)
unfolding concat_all
concat_all-Holds b x xs [] h = (b, refl, rw append-nil h)
concat_all-Holds b x xs ((y, ys) ∷ batches) h =
    let (b', e, h') =
      concat_all-Holds (joined b x xs h y ys) x (xs ++ y ∷ ys) batches
        (joined-Holds b x xs h y ys) in
    (
      b',
      rw (concat-eq b x xs h y ys) e,
      subst (Holds b' x) (append_assoc xs (y ∷ ys) (tokens batches)) h',
    )

torch_concat-snoc :
    (front : List (List ℕ)) (t : List ℕ)
    → torch_concat (front ++ t ∷ []) ≡ some (flatten front ++ t)
unfolding torch_concat
torch_concat-snoc [] t = ap some (flatten-snoc [] t)
torch_concat-snoc (u ∷ front) t = ap some (flatten-snoc (u ∷ front) t)

build-Holds :
    (b : SegmentConcatBuilder) (x : ℕ) (xs : List ℕ)
    → Holds b x xs
    → build b ≡ some (find_segments (x ∷ xs))
unfolding build
build-Holds b x xs h = ground (
  arith,
  find_segments-breaks x xs,
  torch_concat-snoc h.front (h.body ++ (1 + length xs) ∷ []),
  append_assoc (flatten h.front) h.body ((1 + length xs) ∷ []),
)

-- For batches that are not empty, the builder succeeds, and what it builds from the segments of
-- each are the segments of their concatenation: no boundary is lost, doubled or shifted.
pub build-concat_all :
    (x : ℕ) (xs : List ℕ) (batches : List (ℕ × List ℕ))
    → (concat_all empty_builder (find_segments (x ∷ xs) ∷ segments_of batches) >>= build)
      ≡ some (find_segments (x ∷ xs ++ tokens batches))
unfolding concat_all
build-concat_all x xs batches =
    let (b, e, h) = first_Holds x xs in
    let (b', e', h') = concat_all-Holds b x xs batches h in
    rw e (rw e' (build-Holds b' x (xs ++ tokens batches) h'))
