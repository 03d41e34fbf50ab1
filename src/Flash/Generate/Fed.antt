-- ===== src/Flash/Generate/Fed.antt =====
-- What a step leaves for the next to feed: `input_ids`, `all_input_ids` and its tensor.
use lorax.Prelude.{
  ℕ, ◌≡◌, ap, sym, subst, ◌∙◌, arith, false, some, List, [], ◌∷◌, ◌++◌, map, length, last?,
  last?-append, take, gather, Option-cases, inl, inr,
}
use lorax.Tokens.Ngram.{last_accepted}
use lorax.Flash.{FlashCausalLmBatch}
use lorax.Flash.Prefill.Ends.{AllPositive}
use lorax.Flash.Generate.{
  Chosen, Engine, Member, split_ids, write_rows, turn_of, stops, take_tokens,
}
use lorax.Flash.Generate.Step.{Places, Advanced, advanced_of, new_length, turn_after, next_batch}
use lorax.Flash.Generate.Members.{pairs, HasMembers, members_of-pairs}
use lorax.Flash.Generate.Accepted.{EndIn, last_accepted-EndIn, take_tokens-all}
use lorax.Flash.Generate.Written.{Written, write_rows-Written}
use lorax.Flash.Generate.Coherent.{Stepped, length-accepted}

module _ {F Schema : Type 0} (e : Engine F Schema) where
  -- Of each request with its accepted tokens that has not stopped, the id that is fed next is the
  -- last of its tokens; and its row of the tensor starts with its tokens, if it did before.
  abbrev pub Fed :
      List (Member F × List ℕ)
      → List ℕ
      → List ℕ
      → List (List ℕ)
      → List (List ℕ)
      → List (List ℕ)
      → Type 0
  Fed [] [] [] [] rows rows' = Unit
  Fed (p ∷ ps) (id ∷ ids) (n ∷ lengths) (all ∷ alls) (row ∷ rows) (row' ∷ rows') =
      (stops e p ≡ false
        → (last? all ≡ some id)
          × (take p.0.input_length row ≡ p.0.all_input_ids → take n row' ≡ all))
      × Fed ps ids lengths alls rows rows'
  Fed _ _ _ _ _ _ = ⊥

  goes_on-tokens :
      (m : Member F) (accepted : List ℕ)
      → stops e (m, accepted) ≡ false
      → (turn_after e (m, accepted)).ids ≡ m.all_input_ids ++ accepted
  goes_on-tokens m accepted h =
      elim (Option-cases (take_tokens e accepted (turn_of e m)).1.reason) [
        | inl goes_on ↦ take_tokens-all e accepted (turn_of e m) goes_on
        | inr (reason, stopped) ↦ absurd (ground (arith, stopped, h))
      ]

  last?-behind :
      (xs accepted : List ℕ) (id : ℕ) → last? accepted ≡ some id → last? (xs ++ accepted) ≡ some id
  last?-behind xs [] id h = absurd (ground (arith, h))
  last?-behind xs (a ∷ accepted) id h = last?-append xs a accepted ∙ h

  members-Fed :
      (ms : List (Member F)) (accepted : List (List ℕ)) (ids : List ℕ) (rows rows' : List (List ℕ))
      → length accepted ≡ length ms
      → EndIn accepted ids
      → Written (map (λ m. m.input_length) ms) accepted rows rows'
      → Fed
          (pairs ms accepted)
          ids
          (map new_length (pairs ms accepted))
          (map (λ m. (turn_after e m).ids) (pairs ms accepted))
          rows
          rows'
  members-Fed [] [] [] rows rows' n ends written = tt
  members-Fed [] [] (id ∷ ids) rows rows' n ends written = absurd ends
  members-Fed [] (a ∷ accepted) ids rows rows' n ends written = absurd (omega (arith, n))
  members-Fed (m ∷ ms) [] ids rows rows' n ends written = absurd (omega (arith, n))
  members-Fed (m ∷ ms) (a ∷ accepted) [] rows rows' n ends written = absurd ends
  members-Fed (m ∷ ms) (a ∷ accepted) (id ∷ ids) [] rows' n ends written = absurd written
  members-Fed (m ∷ ms) (a ∷ accepted) (id ∷ ids) (row ∷ rows) [] n ends written = absurd written
  members-Fed (m ∷ ms) (a ∷ accepted) (id ∷ ids) (row ∷ rows) (row' ∷ rows') n ends written = (
    (λ goes_on.
        let all = goes_on-tokens m a goes_on in
        (
          ap last? all ∙ last?-behind m.all_input_ids a id ends.0,
          λ before. written.0 ∙ ap (λ xs. xs ++ a) before ∙ sym all,
        )),
    members-Fed ms accepted ids rows rows' (omega (arith, n)) ends.1 written.1,
  )

  -- The parts of the first loop that say which tokens are fed and written.
  advanced_of-tokens :
      (b : FlashCausalLmBatch F Schema) (places : Places) (chosen : Chosen) (a : Advanced)
      → advanced_of e b places chosen ≡ some a
      → (split_ids chosen.accepted_ids chosen.next_input_ids ≡ some a.accepted)
        × (gather chosen.next_input_ids (last_accepted chosen.accepted_ids) ≡ some a.input_ids)
        × (write_rows chosen.next_input_ids 0 b.input_lengths a.accepted b.all_input_ids_tensor
            ≡ some a.all_input_ids_tensor)
  unfolding advanced_of
  advanced_of-tokens b places chosen a h = ground (arith, h)

  -- Let a batch have a member's entry in each of its lists and the input lengths in the tensor, and
  -- let a step of it return a batch, where each request has accepted a token at least. Then for
  -- every request whose turn gave no reason to stop, the new `input_ids` hold the last of its new
  -- `all_input_ids`; and if its row of `all_input_ids_tensor` started with its `input_length`
  -- tokens, then the new row starts with the new ones, as many as the new input length says.
  pub generate_token-Fed :
      (b b' : FlashCausalLmBatch F Schema) (ms : List (Member F)) (s : Stepped e b b')
      → HasMembers b ms
      → b.input_lengths_tensor ≡ b.input_lengths
      → AllPositive s.chosen.accepted_ids
      → Fed
          (pairs ms s.advanced.accepted)
          b'.input_ids
          b'.input_lengths
          b'.all_input_ids
          b.all_input_ids_tensor
          b'.all_input_ids_tensor
  unfolding next_batch
  generate_token-Fed b b' ms s h tensor positive =
      let a = s.advanced in
      let (split, fed, wrote) = advanced_of-tokens b s.places s.chosen a s.advances in
      let members = members_of-pairs e b ms a.accepted h in
      let ends =
        last_accepted-EndIn s.chosen.accepted_ids s.chosen.next_input_ids a.input_ids a.accepted
          positive split fed in
      let written =
        write_rows-Written s.chosen.next_input_ids 0 b.input_lengths a.accepted
          b.all_input_ids_tensor a.all_input_ids_tensor wrote in
      subst
        (λ (c : FlashCausalLmBatch F Schema).
          Fed (pairs ms a.accepted) c.input_ids c.input_lengths c.all_input_ids
            b.all_input_ids_tensor c.all_input_ids_tensor)
        (sym s.result)
        (rw members (
          members-Fed ms a.accepted a.input_ids b.all_input_ids_tensor a.all_input_ids_tensor
            (length-accepted e b b' ms s h tensor) ends
            (subst (λ ns. Written ns a.accepted b.all_input_ids_tensor a.all_input_ids_tensor)
              h.lengths written)))
