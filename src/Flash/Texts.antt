-- ===== src/Flash/Texts.antt =====
-- `decode_token` of server/lorax_server/models/model.py: the text that a new token adds.
use lorax.Prelude.{
  ℕ, ◌+◌, ◌-◌, Bool, false, ◌&&◌, not, none, some, List, [], ltb, ◌==◌, if◌then◌else◌, length, take,
  drop, last?,
}
use lorax.Prelude.Int.{ℤ, pos, negsuc}
use lorax.Tokens.Stopping.{Text}

-- Where a slice of a list of `n` items begins or ends, if it is given an index that may be negative.
abbrev pub slice_index : ℕ → ℤ → ℕ
slice_index n (pos i) = i
slice_index n (negsuc i) = n - (i + 1)

-- `xs[start:]`
abbrev pub slice_from : {A : Type 0} → ℤ → List A → List A
slice_from start xs = drop (slice_index (length xs) start) xs

-- `xs[start:end]`
abbrev pub slice : {A : Type 0} → ℤ → ℤ → List A → List A
slice start end xs = drop (slice_index (length xs) start) (take (slice_index (length xs) end) xs)

-- `text.endswith("\uFFFD")`
unfoldable pub ends_unfinished : Text → Bool
ends_unfinished text = elim (last? text) [ none ↦ false | some c ↦ c == 65533 ]

module _ (decode : List ℕ → Text) where
  -- The text, and the two offsets.
  unfoldable pub decode_token : List ℕ → ℤ → ℤ → Text × (ℤ × ℤ)
  unfolding ends_unfinished
  decode_token all_input_ids prefix_offset read_offset =
      let prefix_text = decode (slice prefix_offset read_offset all_input_ids) in
      let new_text = decode (slice_from prefix_offset all_input_ids) in
      if ltb (length prefix_text) (length new_text) && not (ends_unfinished new_text)
      then (drop (length prefix_text) new_text, (read_offset, pos (length all_input_ids)))
      else ([], (prefix_offset, read_offset))
