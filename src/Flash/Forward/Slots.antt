-- ===== src/Flash/Forward/Slots.antt =====
-- The slots of speculated tokens, which `forward` counts on from the slot of the last token.
use lorax.Prelude.{
  ℕ, zero, suc, ◌+◌, ◌<◌, ◌≡◌, refl, sym, ◌∙◌, arith, some, Option-cases, inl, inr, subst, List, [],
  ◌∷◌, ◌++◌, length, get_elem?, gather, drop,
}
use lorax.Tokens.Ngram.{arange}
use lorax.Flash.{FlashCausalLmBatch}
use lorax.Flash.Prefill.Ends.{get_elem?-arange}
use lorax.Flash.Forward.{ForwardInputs, cat_rows, expand_ranges, forward_inputs}

-- From each of the indices on, `n` slots are consecutive numbers, as those of adjacent blocks are.
abbrev pub RunOn : List ℕ → ℕ → List ℕ → Type 0
RunOn slots n [] = Unit
RunOn slots n (i ∷ is) =
    ((slot : ℕ) × ((j : ℕ) → j < n → get_elem? slots (i + j) ≡ some (slot + j))) × RunOn slots n is

-- The list has for each of the indices the `n` slots from it on, and no more.
abbrev pub NextSlots : List ℕ → ℕ → List ℕ → List ℕ → Type 0
NextSlots slots n [] zs = zs ≡ []
NextSlots slots n (i ∷ is) zs =
    ((j : ℕ) → j < n → get_elem? zs j ≡ get_elem? slots (i + j)) × NextSlots slots n is (drop n zs)

drop-arange : (start n : ℕ) (rest : List ℕ) → drop n (arange start n ++ rest) ≡ rest
unfolding arange
drop-arange start zero rest = refl
drop-arange start (suc n) rest = drop-arange (start + 1) n rest

-- What `forward` counts on from the slots at the indices are the slots that follow them.
NextSlots-expand_ranges :
    (slots : List ℕ) (n : ℕ) (is ys : List ℕ)
    → 0 < n
    → RunOn slots n is
    → gather slots is ≡ some ys
    → NextSlots slots n is (expand_ranges n ys)
unfolding gather expand_ranges
NextSlots-expand_ranges slots n [] ys positive h e = ground (arith, e)
NextSlots-expand_ranges slots n (i ∷ is) ys positive h e = elim (Option-cases (gather slots is)) [
  | inl fails ↦ absurd (ground (arith, e, fails, h.0.1 0 positive))
  | inr (rest, found) ↦
      let slot = h.0.0 in
      let at : get_elem? slots i ≡ some slot = ground (arith, h.0.1 0 positive) in
      let whole : slot ∷ rest ≡ ys = ground (arith, e, found, at) in
      subst (λ zs. NextSlots slots n (i ∷ is) (expand_ranges n zs)) whole
        (
          (λ j k. get_elem?-arange slot n j (expand_ranges n rest) k ∙ sym (h.0.1 j k)),
          subst (NextSlots slots n is) (sym (drop-arange slot n (expand_ranges n rest)))
              (NextSlots-expand_ranges slots n is rest positive h.1 found),
        )
]

-- Let a batch have speculated tokens, and from the slot of each request's last token on as many
-- consecutive slots as it gets rows, which is one more than it has speculated tokens. Then the
-- slots that `forward` hands to the model are for each request in turn its slot at `slot_indices`
-- and the ones behind it in the batch's slots, and no others.
pub forward_inputs-slots :
    {F Schema : Type 0} (b : FlashCausalLmBatch F Schema) (inputs : ForwardInputs) (row : List ℕ)
    (rows : List (List ℕ))
    → b.speculative_ids ≡ some (row ∷ rows)
    → RunOn b.slots (length row + 1) b.slot_indices
    → forward_inputs b ≡ some inputs
    → NextSlots b.slots (length row + 1) b.slot_indices inputs.slots
unfolding forward_inputs
forward_inputs-slots b inputs row rows speculates runs h =
    elim (Option-cases (gather b.slots b.slot_indices)) [
      | inl fails ↦ absurd (ground (arith, h, fails))
      | inr (slots, found) ↦ elim (Option-cases (cat_rows b.input_ids (row ∷ rows))) [
        | inl fails ↦ absurd (ground (arith, h, found, speculates, fails))
        | inr (ids, joined) ↦
            let same : expand_ranges (length row + 1) slots ≡ inputs.slots =
              ground (arith, h, found, speculates, joined) in
            subst (NextSlots b.slots (length row + 1) b.slot_indices) same (
              NextSlots-expand_ranges b.slots (length row + 1) b.slot_indices slots (omega arith)
                runs found)
      ]
    ]
