-- ===== src/Flash/Generate/Coherent.antt =====
-- What holds of a batch between two steps.
use lorax.Prelude.{
  ℕ, suc, ◌-◌, ◌≡◌, refl, ap, ap₂, sym, subst, ◌∙◌, arith, Bool, true, false, Option, none, some,
  List, [], ◌∷◌, map, if◌then◌else◌, length, length-map, gather, Option-cases, not, ◌&&◌, inl, inr,
}
use lorax.Tokens.Ngram.{cumsum}
use lorax.Flash.{FlashCausalLmBatch}
use lorax.Flash.Filter.{last_slots}
use lorax.Flash.Concatenate.Slots.{some≢none, some-inj}
use lorax.Flash.Prefill.{ranges}
use lorax.Flash.Prefill.Ends.{AllPositive, part_ends, gather-ranges, last_slots-zeros}
use lorax.Flash.Generate.{
  Chosen, Engine, Generation, Member, members_of, split_ids, add_each, all_stop,
}
use lorax.Flash.Generate.Step.{
  Places, places_of, Advanced, advanced_of, chosen_of, next_batch, finished, generate_token,
  new_length,
}
use lorax.Flash.Generate.Members.{
  pairs, zip_add, HasMembers, HasMembers-after, member_after, members_of-pairs, new_length-pairs,
  split_ids-lengths, add_each-zip_add,
}

-- A batch whose next step decodes: its lists have an entry for each member, the input lengths are
-- positive and stand in their tensor too, and each position id and slot index is that of the last
-- place of the request's length. Nothing is said of token ids and block tables.
pub record IsCoherent {F Schema : Type 0} (b : FlashCausalLmBatch F Schema) (ms : List (Member F))
    : Type 0 where
  pub members : HasMembers b ms
  pub decodes : b.cu_seqlen_prefill ≡ none
  pub positive : AllPositive b.input_lengths
  pub tensor : b.input_lengths_tensor ≡ b.input_lengths
  pub positions : b.position_ids ≡ map (λ n. n - 1) b.input_lengths
  pub last : b.slot_indices ≡ last_slots b.start_slots b.input_lengths
  pub starts : length b.start_slots ≡ length b.input_lengths

-- A new batch, with the places of every token of its prompts.
pub record IsPrompted {F Schema : Type 0} (b : FlashCausalLmBatch F Schema) (ms : List (Member F))
    : Type 0 where
  pub members : HasMembers b ms
  pub prefills : b.cu_seqlen_prefill ≡ some (0 ∷ cumsum 0 b.input_lengths)
  pub positive : AllPositive b.input_lengths
  pub tensor : b.input_lengths_tensor ≡ b.input_lengths
  pub positions : b.position_ids ≡ ranges (map (λ n. 0) b.input_lengths) b.input_lengths
  pub places : b.slot_indices ≡ ranges b.start_slots b.input_lengths
  pub starts : length b.start_slots ≡ length b.input_lengths

zip_add-positions :
    (lens ns : List ℕ)
    → AllPositive lens
    → zip_add (map (λ n. n - 1) lens) ns ≡ map (λ n. n - 1) (zip_add lens ns)
zip_add-positions [] ns h = refl
zip_add-positions (l ∷ lens) [] h = refl
zip_add-positions (l ∷ lens) (n ∷ ns) h = ground (arith, h.0, zip_add-positions lens ns h.1)

zip_add-last_slots :
    (starts lens ns : List ℕ)
    → AllPositive lens
    → zip_add (last_slots starts lens) ns ≡ last_slots starts (zip_add lens ns)
unfolding last_slots
zip_add-last_slots [] lens ns h = refl
zip_add-last_slots (s ∷ starts) [] ns h = refl
zip_add-last_slots (s ∷ starts) (l ∷ lens) [] h = refl
zip_add-last_slots (s ∷ starts) (l ∷ lens) (n ∷ ns) h =
    ground (arith, h.0, zip_add-last_slots starts lens ns h.1)

length-zip_add : (xs ns : List ℕ) → length xs ≡ length ns → length (zip_add xs ns) ≡ length xs
length-zip_add [] ns h = refl
length-zip_add (x ∷ xs) [] h = absurd (omega arith)
length-zip_add (x ∷ xs) (n ∷ ns) h = ap suc (length-zip_add xs ns (omega arith))

zip_add-AllPositive : (lens ns : List ℕ) → AllPositive lens → AllPositive (zip_add lens ns)
zip_add-AllPositive [] ns h = tt
zip_add-AllPositive (l ∷ lens) [] h = tt
zip_add-AllPositive (l ∷ lens) (n ∷ ns) h = (omega (arith, h.0), zip_add-AllPositive lens ns h.1)

module _ {F Schema : Type 0} where
  -- Where the requests stand before a step.
  abbrev pub Stands : FlashCausalLmBatch F Schema → Places → Type 0
  Stands b places =
      (places.slot_indices ≡ last_slots b.start_slots b.input_lengths)
      × (places.position_ids ≡ map (λ n. n - 1) b.input_lengths)

  decode-Stands :
      (b : FlashCausalLmBatch F Schema) (ms : List (Member F)) (places : Places)
      → IsCoherent b ms
      → places_of b ≡ some places
      → Stands b places
  unfolding places_of
  decode-Stands b ms places h e = ground (arith, h.decodes, h.last, h.positions, e)

  prefill-Stands :
      (b : FlashCausalLmBatch F Schema) (ms : List (Member F)) (places : Places)
      → IsPrompted b ms
      → places_of b ≡ some places
      → Stands b places
  unfolding places_of
  prefill-Stands b ms places h e =
      let lens = b.input_lengths in
      let slots : gather b.slot_indices (part_ends lens) ≡ some (last_slots b.start_slots lens) =
        subst (λ xs. gather xs (part_ends lens) ≡ some (last_slots b.start_slots lens))
          (sym h.places) (gather-ranges b.start_slots lens h.starts h.positive) in
      let positions : gather b.position_ids (part_ends lens) ≡ some (map (λ n. n - 1) lens) =
        subst (λ xs. gather xs (part_ends lens) ≡ some (map (λ n. n - 1) lens)) (sym h.positions)
          (gather-ranges (map (λ n. 0) lens) lens (length-map (λ n. 0) lens) h.positive
            ∙ ap (λ xs. some xs) (last_slots-zeros lens)) in
      ground (arith, h.prefills, slots, positions, e)

module _ {F Schema : Type 0} (e : Engine F Schema) where
  -- What `generate_token` went through when it returned a batch.
  pub record Stepped (b b' : FlashCausalLmBatch F Schema) : Type 0 where
    pub places : Places
    pub chosen : Chosen
    pub advanced : Advanced
    pub at_places : places_of b ≡ some places
    pub advances : advanced_of e b places chosen ≡ some advanced
    pub result : b' ≡ next_batch e b places chosen advanced

  stop_or-some :
      (stop : Bool) (gens : List Generation) (next : FlashCausalLmBatch F Schema)
      (gens' : List Generation) (b' : FlashCausalLmBatch F Schema)
      → ◌≡◌ {A = Option (List Generation × Option (FlashCausalLmBatch F Schema))}
          (some (gens, (if stop then none else some next)))
          (some (gens', some b'))
      → b' ≡ next
  stop_or-some true gens next gens' b' h = ground (arith, h)
  stop_or-some false gens next gens' b' h = some-inj b' next (sym (ap (λ p. p.1) (some-inj _ _ h)))

  pub generate_token-Stepped :
      (warmup : Bool) (b b' : FlashCausalLmBatch F Schema) (gens : List Generation)
      → generate_token e warmup b ≡ some (gens, some b')
      → Stepped b b'
  unfolding generate_token
  generate_token-Stepped warmup b b' gens h = elim (Option-cases (chosen_of e b)) [
    | inl p ↦ absurd (some≢none _ (sym h ∙ rw p))
    | inr (chosen, p) ↦ elim (Option-cases (places_of b)) [
      | inl q ↦ absurd (some≢none _ (sym h ∙ rw (p, q)))
      | inr (places, q) ↦ elim (Option-cases (advanced_of e b places chosen)) [
        | inl r ↦ absurd (some≢none _ (sym h ∙ rw (p, q, r)))
        | inr (a, r) ↦ record {
          places = places;
          chosen = chosen;
          advanced = a;
          at_places = q;
          advances = r;
          result =
              let ran : generate_token e warmup b ≡ some (finished e warmup b places chosen a) =
                rw (p, q, r) in
              stop_or-some (not warmup && all_stop e (members_of b a.accepted)) _ _ gens b'
                (sym ran ∙ h);
        }
      ]
    ]
  ]

  -- What the tensors are behind the first loop.
  advanced_of-parts :
      (b : FlashCausalLmBatch F Schema) (places : Places) (chosen : Chosen) (a : Advanced)
      → advanced_of e b places chosen ≡ some a
      → (split_ids chosen.accepted_ids chosen.next_input_ids ≡ some a.accepted)
        × (add_each places.position_ids chosen.accepted_ids ≡ some a.position_ids)
        × (add_each b.input_lengths_tensor chosen.accepted_ids ≡ some a.input_lengths_tensor)
        × (add_each places.slot_indices chosen.accepted_ids ≡ some a.slot_indices)
  unfolding advanced_of
  advanced_of-parts b places chosen a h = ground (arith, h)

  -- Each member has its accepted tokens.
  pub length-accepted :
      (b b' : FlashCausalLmBatch F Schema) (ms : List (Member F)) (s : Stepped b b')
      → HasMembers b ms
      → b.input_lengths_tensor ≡ b.input_lengths
      → length s.advanced.accepted ≡ length ms
  length-accepted b b' ms s h tensor =
      let a = s.advanced in
      let ns = s.chosen.accepted_ids in
      let (split, _, lengths, _) = advanced_of-parts b s.places s.chosen a s.advances in
      let counts = split_ids-lengths ns s.chosen.next_input_ids a.accepted split in
      let (_, sizes) = add_each-zip_add b.input_lengths_tensor ns a.input_lengths_tensor lengths in
      sym (length-map length a.accepted)
      ∙ ap length counts
      ∙ sym sizes
      ∙ ap length (tensor ∙ h.lengths)
      ∙ length-map (λ m. m.input_length) ms

  step-IsCoherent :
      (b b' : FlashCausalLmBatch F Schema) (ms : List (Member F)) (s : Stepped b b')
      → HasMembers b ms
      → AllPositive b.input_lengths
      → b.input_lengths_tensor ≡ b.input_lengths
      → Stands b s.places
      → length b.start_slots ≡ length b.input_lengths
      → IsCoherent b' (map (member_after e) (pairs ms s.advanced.accepted))
  unfolding next_batch
  step-IsCoherent b b' ms s h pos tensor stands starts =
      let a = s.advanced in
      let ns = s.chosen.accepted_ids in
      let (split, positions, lengths, slots) = advanced_of-parts b s.places s.chosen a s.advances in
      let counts = split_ids-lengths ns s.chosen.next_input_ids a.accepted split in
      let (tensor', sizes) =
        add_each-zip_add b.input_lengths_tensor ns a.input_lengths_tensor lengths in
      let members = members_of-pairs e b ms a.accepted h in
      let as_many = length-accepted b b' ms s h tensor in
      let new_lengths : b'.input_lengths ≡ zip_add b.input_lengths ns =
        ap (λ c. c.input_lengths) s.result
        ∙ rw (members, h.lengths)
            (new_length-pairs ms a.accepted ∙ ap (zip_add (map (λ m. m.input_length) ms)) counts) in
      record {
        members =
            HasMembers-after e b b' ms a.accepted h as_many (ap (λ c. c.requests) s.result)
              (ap (λ c. c.next_token_chooser.do_sample) s.result)
              (ap (λ c. c.next_token_chooser.seeds) s.result)
              (ap (λ c. c.input_lengths) s.result ∙ ap (map new_length) members)
              (ap (λ c. c.prefix_offsets) s.result ∙ ap (map _) members)
              (ap (λ c. c.read_offsets) s.result ∙ ap (map _) members)
              (ap (λ c. c.all_input_ids) s.result ∙ ap (map _) members)
              (ap (λ c. c.stopping_criterias) s.result ∙ ap (map _) members);
        decodes = ap (λ c. c.cu_seqlen_prefill) s.result;
        positive = subst AllPositive (sym new_lengths) (zip_add-AllPositive b.input_lengths ns pos);
        tensor =
            ap (λ c. c.input_lengths_tensor) s.result
            ∙ tensor'
            ∙ ap (λ xs. zip_add xs ns) tensor
            ∙ sym new_lengths;
        positions =
            ap (λ c. c.position_ids) s.result
            ∙ (add_each-zip_add s.places.position_ids ns a.position_ids positions).0
            ∙ ap (λ xs. zip_add xs ns) stands.1
            ∙ zip_add-positions b.input_lengths ns pos
            ∙ ap (map (λ n. n - 1)) (sym new_lengths);
        last =
            ap (λ c. c.slot_indices) s.result
            ∙ (add_each-zip_add s.places.slot_indices ns a.slot_indices slots).0
            ∙ ap (λ xs. zip_add xs ns) stands.0
            ∙ zip_add-last_slots b.start_slots b.input_lengths ns pos
            ∙ ap₂ last_slots (sym (ap (λ c. c.start_slots) s.result)) (sym new_lengths);
        starts =
            ap (λ c. length c.start_slots) s.result
            ∙ starts
            ∙ sym (length-zip_add b.input_lengths ns (sym (ap length tensor) ∙ sizes))
            ∙ sym (ap length new_lengths);
      }

  -- Let a batch be coherent with its members: it is no prefill, each list that the second loop
  -- reads has an entry for each member, the input lengths are positive and equal to
  -- `input_lengths_tensor`, each position id is the input length less 1, and each slot index is
  -- the start slot and the input length less 1. If `generate_token` returns a batch for it, then
  -- that batch is coherent again. Nothing is said of `input_ids`, of `all_input_ids_tensor` and of
  -- the block tables.
  pub generate_token-IsCoherent :
      (warmup : Bool) (b b' : FlashCausalLmBatch F Schema) (gens : List Generation)
      (ms : List (Member F))
      → IsCoherent b ms
      → generate_token e warmup b ≡ some (gens, some b')
      → (ms' : List (Member F)) × IsCoherent b' ms'
  generate_token-IsCoherent warmup b b' gens ms h step =
      let s = generate_token-Stepped warmup b b' gens step in
      (
        map (member_after e) (pairs ms s.advanced.accepted),
        step-IsCoherent b b' ms s h.members h.positive h.tensor
            (decode-Stands b ms s.places h s.at_places) h.starts,
      )

  -- The first step of a new batch, whose places are those of every token of the prompts, returns a
  -- coherent batch, if it returns one.
  pub prefill-IsCoherent :
      (warmup : Bool) (b b' : FlashCausalLmBatch F Schema) (gens : List Generation)
      (ms : List (Member F))
      → IsPrompted b ms
      → generate_token e warmup b ≡ some (gens, some b')
      → (ms' : List (Member F)) × IsCoherent b' ms'
  prefill-IsCoherent warmup b b' gens ms h step =
      let s = generate_token-Stepped warmup b b' gens step in
      (
        map (member_after e) (pairs ms s.advanced.accepted),
        step-IsCoherent b b' ms s h.members h.positive h.tensor
            (prefill-Stands b ms s.places h s.at_places) h.starts,
      )
