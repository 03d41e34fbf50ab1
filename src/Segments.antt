-- ===== src/Segments.antt =====
-- server/lorax_server/utils/segments.py: runs of equal adapter indices, as the SGMV kernels
-- read them, and their concatenation when batches are joined.
pub mod Runs
pub mod Expand
pub mod Concat
use mathlib.Core.List.{flatten}
use mathlib.Core.Option
use lorax.Prelude.{
  ℕ, ◌+◌, ◌<◌, ◌≡◌, Bool, true, false, Option, none, some, List, [], ◌∷◌, ◌++◌, map, ltb, ◌==◌,
  if◌then◌else◌, length, last?, init, drop, ◌>>=◌,
}

-- The local variables of the loop in `find_segments`.
pub record Scan : Type 0 where
  pub segments : List ℕ
  pub segment_indices : List ℕ
  pub start_index : ℕ

-- One round: `previous` is `adapter_indices[i - 1]` and `current` is `adapter_indices[i]`.
unfoldable pub scan_step : ℕ → ℕ → ℕ → Scan → Scan
scan_step previous current i s = if current == previous then s else record {
  segments = s.segments ++ i ∷ [];
  segment_indices = s.segment_indices ++ previous ∷ [];
  start_index = i;
}

unfoldable pub scan : ℕ → ℕ → List ℕ → Scan → ℕ × Scan
scan previous i [] s = (previous, s)
scan previous i (current ∷ rest) s = scan current (i + 1) rest (scan_step previous current i s)

-- "Handle the last segment": `last` is `adapter_indices[-1]`.
unfoldable pub close : ℕ → ℕ → Scan → List ℕ × List ℕ
close size last s =
    if ltb s.start_index size
    then (s.segments ++ size ∷ [], s.segment_indices ++ last ∷ [])
    else (s.segments, s.segment_indices)

unfoldable pub find_segments : List ℕ → List ℕ × List ℕ
find_segments [] = (0 ∷ [], [])
find_segments (first ∷ rest) =
    let (last, s) =
      scan first 1 rest (record { segments = 0 ∷ []; segment_indices = []; start_index = 0 }) in
    close (length (first ∷ rest)) last s

-- SegmentConcatBuilder. `none` is an IndexError, or the RuntimeError of `torch.concat([])`.
pub record SegmentConcatBuilder : Type 0 where
  pub adapter_segment_indices : List ℕ
  pub adapter_segment_tensors : List (List ℕ)

abbrev pub empty_builder : SegmentConcatBuilder
empty_builder = record { adapter_segment_indices = []; adapter_segment_tensors = [] }

-- The first test of `concat`: drop the leading 0 and add the end of the tensor before.
unfoldable pub offset_segments : List (List ℕ) → List ℕ → Option (List ℕ)
offset_segments tensors adapter_segments = elim (last? tensors) [
  | none ↦ some adapter_segments
  | some before ↦ Option.map (λ end. map (λ s. s + end) (drop 1 adapter_segments)) (last? before)
]

-- `tensors[-1] = tensors[-1][:-1]`
unfoldable pub trim_last : List (List ℕ) → Option (List (List ℕ))
trim_last [] = none
trim_last (t ∷ []) = some (init t ∷ [])
trim_last (t ∷ u ∷ rest) = Option.map (λ r. t ∷ r) (trim_last (u ∷ rest))

-- The second test of `concat`: the new batch begins with the adapter that the last one ended with.
unfoldable pub merge_segments : SegmentConcatBuilder → List ℕ → Option (List (List ℕ) × List ℕ)
merge_segments b segment_indices = elim (last? b.adapter_segment_indices) [
  | none ↦ some (b.adapter_segment_tensors, segment_indices)
  | some before ↦ elim segment_indices [
    | [] ↦ none
    | first ∷ rest ↦
        if before == first
        then Option.map (λ tensors. (tensors, rest)) (trim_last b.adapter_segment_tensors)
        else some (b.adapter_segment_tensors, first ∷ rest)
  ]
]

unfoldable pub concat : SegmentConcatBuilder → List ℕ × List ℕ → Option SegmentConcatBuilder
concat b (adapter_segments, segment_indices) = do
  offset ← offset_segments b.adapter_segment_tensors adapter_segments
  (tensors, indices) ← merge_segments b segment_indices
  some (record {
    adapter_segment_indices = b.adapter_segment_indices ++ indices;
    adapter_segment_tensors = tensors ++ offset ∷ [];
  })

-- The loop of a caller, one `concat` for each batch.
unfoldable pub concat_all :
    SegmentConcatBuilder → List (List ℕ × List ℕ) → Option SegmentConcatBuilder
concat_all b [] = some b
concat_all b (batch ∷ batches) = do b' ← concat b batch; concat_all b' batches

-- `torch.concat`, which refuses an empty list.
unfoldable pub torch_concat : List (List ℕ) → Option (List ℕ)
torch_concat [] = none
torch_concat (t ∷ ts) = some (flatten (t ∷ ts))

unfoldable pub build : SegmentConcatBuilder → Option (List ℕ × List ℕ)
build b = do
  segments ← torch_concat b.adapter_segment_tensors
  some (segments, b.adapter_segment_indices)
