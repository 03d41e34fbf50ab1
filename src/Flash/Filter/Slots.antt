-- ===== src/Flash/Filter/Slots.antt =====
-- The slots, starts and segments of a filtered batch.
use lorax.Prelude.{ℕ, ◌≡◌, ap, sym, ◌∙◌, arith, false, some, List, [], length, replicate, gather}
use lorax.Segments.{find_segments}
use lorax.Tokens.Stopping.{StoppingCriteria}
use lorax.Tokens.Chooser.{FloatTests, true_indices}
use lorax.Flash.{FlashCausalLmBatch}
use lorax.Flash.Filter.{lookup_all, spans, starts, last_slots, mask_spans, select, filter_requests}
use lorax.Flash.Filter.Mask.{Chunk, kept_starts, kept_spans, select-mask_spans}
use lorax.Flash.Filter.Layout.{
  keep, gather-keep_from, flags_of, IsLaidOut, left, kept_starts-keep, kept_spans-keep, spans-keep,
  lengths-left, spans-left, Fits-left, slots-left, length-keep, length-flags, length-starts,
}

module _ {F Schema : Type 0} (f : FloatTests F) (b c : FlashCausalLmBatch F Schema)
    (request_ids indices : List ℕ)
    (looked_up : lookup_all b.requests_idx_mapping request_ids ≡ some indices)
    (filtered : filter_requests f b request_ids ≡ some c) where
  -- What `filter` makes of the lists that the slots depend on.
  filter_requests-parts :
      (lengths old_starts : List ℕ) (criterias : List StoppingCriteria)
      → gather b.input_lengths indices ≡ some lengths
      → gather b.stopping_criterias indices ≡ some criterias
      → gather b.start_slots indices ≡ some old_starts
      → (c.input_lengths ≡ lengths)
        × (c.stopping_criterias ≡ criterias)
        × (c.start_slots ≡ starts 0 (spans lengths criterias))
        × (c.slots
            ≡ select b.slots (
                mask_spans 0 old_starts
                  (spans lengths criterias)
                  (replicate (length b.slots) false)))
  unfolding filter_requests
  filter_requests-parts lengths old_starts criterias e₁ e₂ e₃ =
      ground (arith, looked_up, filtered, e₁, e₂, e₃)

  segments_part :
      find_segments c.adapter_meta.adapter_indices
      ≡ (c.adapter_meta.adapter_segments, c.adapter_meta.segment_indices)
  unfolding filter_requests
  segments_part = ground (arith, looked_up, filtered)

  last_part : c.slot_indices ≡ last_slots c.start_slots c.input_lengths
  unfolding filter_requests
  last_part = ground (arith, looked_up, filtered)

module _ {F Schema : Type 0} (f : FloatTests F) (b c : FlashCausalLmBatch F Schema)
    (request_ids : List ℕ) (rows : List Chunk) where
  -- If the batch is laid out request by request, the kept requests are named in the order of the
  -- batch, and `filter` succeeds, it leaves a batch that is laid
  -- out as before: the slots of each kept request, cut to those that it still needs, in turn, with
  -- the starts where they now begin. The last slots follow from the starts and input lengths, and
  -- the adapter segments are those of the kept adapter indices.
  pub filter_requests-IsLaidOut :
      IsLaidOut b rows
      → lookup_all b.requests_idx_mapping request_ids ≡ some (true_indices 0 (flags_of rows))
      → filter_requests f b request_ids ≡ some c
      → IsLaidOut c (left rows)
        × (c.slot_indices ≡ last_slots c.start_slots c.input_lengths)
        × (find_segments c.adapter_meta.adapter_indices
            ≡ (c.adapter_meta.adapter_segments, c.adapter_meta.segment_indices))
  filter_requests-IsLaidOut h looked_up filtered =
      let flags = flags_of rows in
      let kept : spans (keep flags b.input_lengths) (keep flags b.stopping_criterias)
          ≡ kept_spans rows =
        spans-keep flags b.input_lengths b.stopping_criterias
        ∙ ap (keep flags) h.needs
        ∙ kept_spans-keep rows in
      let (e_lengths, e_criterias, e_starts, e_slots) =
        filter_requests-parts f b c request_ids (true_indices 0 flags) looked_up filtered
          (keep flags b.input_lengths) (keep flags b.start_slots) (keep flags b.stopping_criterias)
          (gather-keep_from [] b.input_lengths flags (omega (arith, h.lengths, length-flags rows)))
          (gather-keep_from [] b.stopping_criterias flags
            (omega (arith, h.criterias, length-flags rows)))
          (gather-keep_from [] b.start_slots flags
            (omega (arith, ap length h.starts, length-starts 0 rows, length-flags rows))) in
      let old : keep flags b.start_slots ≡ kept_starts 0 rows =
        ap (keep flags) h.starts ∙ kept_starts-keep 0 rows in
      (
        record {
          slots =
              e_slots ∙ rw (h.slots, old, kept) (select-mask_spans 0 rows h.fits) ∙ slots-left rows;
          starts = e_starts ∙ ap (starts 0) (kept ∙ sym (lengths-left rows h.fits));
          needs = rw (e_lengths, e_criterias) (kept ∙ sym (spans-left rows));
          lengths = rw e_lengths (length-keep rows b.input_lengths h.lengths);
          criterias = rw e_criterias (length-keep rows b.stopping_criterias h.criterias);
          fits = Fits-left rows h.fits;
        },
        last_part f b c request_ids (true_indices 0 flags) looked_up filtered,
        segments_part f b c request_ids (true_indices 0 flags) looked_up filtered,
      )
