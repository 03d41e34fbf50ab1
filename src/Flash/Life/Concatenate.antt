-- ===== src/Flash/Life/Concatenate.antt =====
-- Coherent batches that are joined are a coherent batch.
use mathlib.Core.Option
use lorax.Prelude.{
  ℕ, suc, ◌+◌, ◌-◌, ◌≡◌, refl, ap, ap₂, sym, subst, ◌∙◌, arith, Option, some, List, [], ◌∷◌, ◌++◌,
  map, map-append, length, length-append, length-map, replicate, Option-cases, inl, inr,
}
use lorax.Tokens.Chooser.{FloatTests, new, RequestParameters, from_pb}
use lorax.Tokens.Chooser.Laws.{samples, warpers_of-samples}
use lorax.Flash.{FlashCausalLmBatch}
use lorax.Flash.Filter.{last_slots}
use lorax.Flash.Concatenate.{
  assign, assign_all, assign_slot_indices, offset_starts, extend, processors_of, Tensors,
  tensors_of, assemble, concatenate,
}
use lorax.Flash.Concatenate.Slots.{some≢none, some-inj}
use lorax.Flash.Prefill.Ends.{AllPositive}
use lorax.Flash.Generate.{Member}
use lorax.Flash.Generate.Members.{map-map}
use lorax.Flash.Generate.Coherent.{IsCoherent}

assign-some :
    {A : Type 0} (n : ℕ) (xs ys : List A) → length xs ≡ n → assign n xs ≡ some ys → ys ≡ xs
assign-some n [] ys h e = ground (arith, h, e)
assign-some n (x ∷ []) ys h e = sym (some-inj (x ∷ []) ys (ap (λ k. some (replicate k x)) h ∙ e))
assign-some n (x ∷ y ∷ xs) ys h e = ground (arith, h, e)

AllPositive-append : (ns ms : List ℕ) → AllPositive ns → AllPositive ms → AllPositive (ns ++ ms)
AllPositive-append [] ms h k = k
AllPositive-append (n ∷ ns) ms h k = (h.0, AllPositive-append ns ms h.1 k)

last_slots-append :
    (ss ns ts ms : List ℕ)
    → length ss ≡ length ns
    → last_slots (ss ++ ts) (ns ++ ms) ≡ last_slots ss ns ++ last_slots ts ms
unfolding last_slots
last_slots-append [] [] ts ms h = refl
last_slots-append [] (n ∷ ns) ts ms h = absurd (omega arith)
last_slots-append (s ∷ ss) [] ts ms h = absurd (omega arith)
last_slots-append (s ∷ ss) (n ∷ ns) ts ms h =
    ap (λ (xs : List ℕ). (s + n - 1) ∷ xs) (last_slots-append ss ns ts ms (omega arith))

last_slots-offset :
    (total : ℕ) (ss ns : List ℕ)
    → AllPositive ns
    → map (λ i. i + total) (last_slots ss ns) ≡ last_slots (map (λ i. i + total) ss) ns
unfolding last_slots
last_slots-offset total [] ns h = refl
last_slots-offset total (s ∷ ss) [] h = refl
last_slots-offset total (s ∷ ss) (n ∷ ns) h = ground (arith, h.0, last_slots-offset total ss ns h.1)

length-last_slots : (ss ns : List ℕ) → length ss ≡ length ns → length (last_slots ss ns) ≡ length ns
unfolding last_slots
length-last_slots [] ns h = h
length-last_slots (s ∷ ss) [] h = refl
length-last_slots (s ∷ ss) (n ∷ ns) h = ap suc (length-last_slots ss ns (omega arith))

abbrev pub join_members : {F : Type 0} → List (List (Member F)) → List (Member F)
join_members [] = []
join_members (ms ∷ mss) = ms ++ join_members mss

module _ {F Schema : Type 0} where
  abbrev pub AllCoherent : List (FlashCausalLmBatch F Schema) → List (List (Member F)) → Type 0
  AllCoherent [] [] = Unit
  AllCoherent (b ∷ bs) (ms ∷ mss) = IsCoherent b ms × AllCoherent bs mss
  AllCoherent _ _ = ⊥

  -- A column that each batch has of its members, the joined batch has of all.
  extend-column :
      {B : Type 0} (field : FlashCausalLmBatch F Schema → List B) (g : Member F → B)
      → ((b : FlashCausalLmBatch F Schema) (ms : List (Member F))
          → IsCoherent b ms
          → field b ≡ map g ms)
      → (bs : List (FlashCausalLmBatch F Schema)) (mss : List (List (Member F)))
      → AllCoherent bs mss
      → extend field bs ≡ map g (join_members mss)
  unfolding extend
  extend-column field g col [] [] h = refl
  extend-column field g col [] (ms ∷ mss) h = absurd h
  extend-column field g col (b ∷ bs) [] h = absurd h
  extend-column field g col (b ∷ bs) (ms ∷ mss) h =
      ap₂ (λ xs ys. xs ++ ys) (col b ms h.0) (extend-column field g col bs mss h.1)
      ∙ sym (map-append g ms (join_members mss))

  size_of :
      (b : FlashCausalLmBatch F Schema) (ms : List (Member F))
      → IsCoherent b ms
      → length b.input_lengths ≡ length b.requests
  size_of b ms h =
      ap length h.members.lengths
      ∙ length-map (λ m. m.input_length) ms
      ∙ sym (length-map (λ m. m.request) ms)
      ∙ sym (ap length h.members.requests)

  assign_all-extend :
      (field : FlashCausalLmBatch F Schema → List ℕ)
      → ((b : FlashCausalLmBatch F Schema) (ms : List (Member F))
          → IsCoherent b ms
          → length (field b) ≡ length b.requests)
      → (bs : List (FlashCausalLmBatch F Schema)) (mss : List (List (Member F))) (ys : List ℕ)
      → AllCoherent bs mss
      → assign_all field bs ≡ some ys
      → ys ≡ extend field bs
  unfolding assign_all extend
  assign_all-extend field size [] mss ys h e = ground (arith, e)
  assign_all-extend field size (b ∷ bs) [] ys h e = absurd h
  assign_all-extend field size (b ∷ bs) (ms ∷ mss) ys h e =
      elim (Option-cases (assign (length b.requests) (field b))) [
        | inl p ↦ ground (arith, p, e)
        | inr (here, p) ↦ elim (Option-cases (assign_all field bs)) [
          | inl q ↦ ground (arith, p, q, e)
          | inr (rest, q) ↦
              sym (some-inj (here ++ rest) ys (sym (rw (p, q)) ∙ e))
              ∙ ap₂ (λ (xs zs : List ℕ). xs ++ zs)
                  (assign-some (length b.requests) (field b) here (size b ms h.0) p)
                  (assign_all-extend field size bs mss rest h.1 q)
        ]
      ]

  assign_slot_indices-last :
      (total : ℕ) (bs : List (FlashCausalLmBatch F Schema)) (mss : List (List (Member F)))
      (ys : List ℕ)
      → AllCoherent bs mss
      → assign_slot_indices total bs ≡ some ys
      → ys ≡ last_slots (offset_starts total bs) (extend (λ b. b.input_lengths) bs)
  unfolding assign_slot_indices extend offset_starts
  assign_slot_indices-last total [] mss ys h e = unfold last_slots in ground (arith, e)
  assign_slot_indices-last total (b ∷ bs) [] ys h e = absurd h
  assign_slot_indices-last total (b ∷ bs) (ms ∷ mss) ys h e =
      let moved = map (λ i. i + total) b.slot_indices in
      let size : length moved ≡ length b.requests =
        length-map (λ i. i + total) b.slot_indices
        ∙ ap length h.0.last
        ∙ length-last_slots b.start_slots b.input_lengths h.0.starts
        ∙ size_of b ms h.0 in
      elim (Option-cases (assign (length b.requests) moved)) [
        | inl p ↦ ground (arith, p, e)
        | inr (here, p) ↦ elim (Option-cases (assign_slot_indices (total + length b.slots) bs)) [
          | inl q ↦ ground (arith, p, q, e)
          | inr (rest, q) ↦
              sym (some-inj (here ++ rest) ys (sym (rw (p, q)) ∙ e))
              ∙ ap₂ (λ (xs zs : List ℕ). xs ++ zs)
                  (assign-some (length b.requests) moved here size p
                    ∙ ap (map (λ i. i + total)) h.0.last
                    ∙ last_slots-offset total b.start_slots b.input_lengths h.0.positive)
                  (assign_slot_indices-last (total + length b.slots) bs mss rest h.1 q)
              ∙ sym (
                  last_slots-append (map (λ i. i + total) b.start_slots) b.input_lengths _ _
                    (length-map (λ i. i + total) b.start_slots ∙ h.0.starts))
        ]
      ]

  extend-AllPositive :
      (bs : List (FlashCausalLmBatch F Schema)) (mss : List (List (Member F)))
      → AllCoherent bs mss
      → AllPositive (extend (λ b. b.input_lengths) bs)
  unfolding extend
  extend-AllPositive [] mss h = tt
  extend-AllPositive (b ∷ bs) [] h = absurd h
  extend-AllPositive (b ∷ bs) (ms ∷ mss) h =
      AllPositive-append b.input_lengths _ h.0.positive (extend-AllPositive bs mss h.1)

  length-offset_starts :
      (total : ℕ) (bs : List (FlashCausalLmBatch F Schema)) (mss : List (List (Member F)))
      → AllCoherent bs mss
      → length (offset_starts total bs) ≡ length (extend (λ b. b.input_lengths) bs)
  unfolding extend offset_starts
  length-offset_starts total [] mss h = refl
  length-offset_starts total (b ∷ bs) [] h = absurd h
  length-offset_starts total (b ∷ bs) (ms ∷ mss) h = omega (
    arith,
    length-append (map (λ i. i + total) b.start_slots) (offset_starts (total + length b.slots) bs),
    length-append b.input_lengths (extend (λ b. b.input_lengths) bs),
    length-map (λ i. i + total) b.start_slots,
    h.0.starts,
    length-offset_starts (total + length b.slots) bs mss h.1,
  )

-- A member with the sample flag and the seed of its request's parameters.
abbrev pub renewed : {F : Type 0} → FloatTests F → Member F → Member F
renewed f m = record m {
  do_sample = samples f m.request.parameters;
  seed = m.request.parameters.seed;
}

renewed-column :
    {F B : Type 0} (f : FloatTests F) (g : Member F → B)
    → ((m : Member F) → g (renewed f m) ≡ g m)
    → (ms : List (Member F)) → map g ms ≡ map g (map (renewed f) ms)
renewed-column f g same [] = refl
renewed-column f g same (m ∷ ms) = ap₂ (λ x xs. x ∷ xs) (sym (same m)) (renewed-column f g same ms)

module _ {F Schema : Type 0} (f : FloatTests F) where
  tensors_of-parts :
      (first : FlashCausalLmBatch F Schema) (bs : List (FlashCausalLmBatch F Schema)) (t : Tensors)
      → tensors_of first bs ≡ some t
      → (assign_all (λ b. b.position_ids) bs ≡ some t.position_ids)
        × (assign_slot_indices 0 bs ≡ some t.slot_indices)
        × (assign_all (λ b. b.input_lengths_tensor) bs ≡ some t.input_lengths_tensor)
  unfolding tensors_of
  tensors_of-parts first bs t h = ground (arith, h)

  pub new-columns :
      (parameters : List (RequestParameters F)) (processors : List (Option Schema))
      → ((new f (from_pb parameters) processors).do_sample ≡ map (samples f) parameters)
        × ((new f (from_pb parameters) processors).seeds ≡ map (λ r. r.seed) parameters)
  unfolding new from_pb
  new-columns parameters processors = (warpers_of-samples f parameters, refl)

  assemble-IsCoherent :
      (first : FlashCausalLmBatch F Schema) (others : List (FlashCausalLmBatch F Schema))
      (mss : List (List (Member F))) (t : Tensors)
      → AllCoherent (first ∷ others) mss
      → tensors_of first (first ∷ others) ≡ some t
      → IsCoherent (assemble f first others t) (map (renewed f) (join_members mss))
  unfolding assemble
  assemble-IsCoherent first others mss t h e =
      let bs = first ∷ others in
      let ms = join_members mss in
      let (positions, slots, tensor) = tensors_of-parts first bs t e in
      let requests =
        extend-column (λ b. b.requests) (λ m. m.request) (λ b ms k. k.members.requests) bs mss h in
      let parameters = map (λ r. r.parameters) (extend (λ b. b.requests) bs) in
      let same_parameters : parameters ≡ map (λ m. m.request.parameters) ms =
        ap (map (λ r. r.parameters)) requests ∙ map-map (λ r. r.parameters) (λ m. m.request) ms in
      let (flags, seeds) = new-columns parameters (extend processors_of bs) in
      let lens : extend (λ b. b.input_lengths) bs ≡ map (λ m. m.input_length) ms =
        extend-column (λ b. b.input_lengths) _ (λ b ms k. k.members.lengths) bs mss h in
      record {
        members = record {
          requests = requests ∙ renewed-column f (λ m. m.request) (λ m. refl) ms;
          lengths = lens ∙ renewed-column f (λ m. m.input_length) (λ m. refl) ms;
          prefixes =
              extend-column (λ b. b.prefix_offsets) _ (λ b ms k. k.members.prefixes) bs mss h
              ∙ renewed-column f (λ m. m.prefix_offset) (λ m. refl) ms;
          reads =
              extend-column (λ b. b.read_offsets) _ (λ b ms k. k.members.reads) bs mss h
              ∙ renewed-column f (λ m. m.read_offset) (λ m. refl) ms;
          criterias =
              extend-column (λ b. b.stopping_criterias) _ (λ b ms k. k.members.criterias) bs mss h
              ∙ renewed-column f (λ m. m.criteria) (λ m. refl) ms;
          ids =
              extend-column (λ b. b.all_input_ids) _ (λ b ms k. k.members.ids) bs mss h
              ∙ renewed-column f (λ m. m.all_input_ids) (λ m. refl) ms;
          samples =
              flags
              ∙ ap (map (samples f)) same_parameters
              ∙ map-map (samples f) (λ m. m.request.parameters) ms
              ∙ sym (map-map (λ m. m.do_sample) (renewed f) ms);
          seeds =
              seeds
              ∙ ap (map (λ r. r.seed)) same_parameters
              ∙ map-map (λ r. r.seed) (λ m. m.request.parameters) ms
              ∙ sym (map-map (λ m. m.seed) (renewed f) ms);
        };
        decodes = refl;
        positive = extend-AllPositive bs mss h;
        tensor =
            assign_all-extend (λ b. b.input_lengths_tensor)
              (λ b ms k. ap length k.tensor ∙ size_of b ms k) bs mss t.input_lengths_tensor h tensor
            ∙ extend-column (λ b. b.input_lengths_tensor) _ (λ b ms k. k.tensor ∙ k.members.lengths)
                bs mss h
            ∙ sym lens;
        positions =
            assign_all-extend (λ b. b.position_ids)
              (λ b ms k.
                ap length k.positions ∙ length-map (λ n. n - 1) b.input_lengths ∙ size_of b ms k)
              bs mss t.position_ids h positions
            ∙ extend-column (λ b. b.position_ids) (λ m. m.input_length - 1)
                (λ b ms k.
                  k.positions
                  ∙ ap (map (λ n. n - 1)) k.members.lengths
                  ∙ map-map (λ (n : ℕ). n - 1) (λ m. m.input_length) ms)
                bs mss h
            ∙ sym
                (ap (map (λ n. n - 1)) lens ∙ map-map (λ (n : ℕ). n - 1) (λ m. m.input_length) ms);
        last = assign_slot_indices-last 0 bs mss t.slot_indices h slots;
        starts = length-offset_starts 0 bs mss h;
      }

  -- Where coherent batches are joined, the joined batch is coherent; its members are theirs in
  -- turn, each sampled as its own request's parameters say.
  pub concatenate-IsCoherent :
      (bs : List (FlashCausalLmBatch F Schema)) (mss : List (List (Member F)))
      (c : FlashCausalLmBatch F Schema)
      → AllCoherent bs mss
      → concatenate f bs ≡ some c
      → IsCoherent c (map (renewed f) (join_members mss))
  unfolding concatenate assemble
  concatenate-IsCoherent [] mss c h e = ground (arith, e)
  concatenate-IsCoherent (first ∷ others) mss c h e =
      elim (Option-cases (tensors_of first (first ∷ others))) [
        | inl p ↦ absurd (some≢none c (sym e ∙ ap (Option.map (assemble f first others)) p))
        | inr (t, p) ↦
            subst (λ d. IsCoherent d (map (renewed f) (join_members mss)))
              (some-inj (assemble f first others t) c
                (sym (ap (Option.map (assemble f first others)) p) ∙ e))
              (assemble-IsCoherent first others mss t h p)
      ]
