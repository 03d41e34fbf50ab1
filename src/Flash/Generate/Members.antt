-- ===== src/Flash/Generate/Members.antt =====
-- A batch as a list of members: what the second loop of `generate_token` makes of each.
use lorax.Prelude.{
  ℕ, ◌+◌, ◌≡◌, refl, ap, ap₂, sym, ◌∙◌, arith, some, List, [], ◌∷◌, map, length, drop, Option-cases,
  inl, inr,
}
use lorax.Flash.{FlashCausalLmBatch}
use lorax.Flash.Generate.{Engine, Member, zip_members, members_of, split_ids, add_each}
use lorax.Flash.Generate.Step.{new_length, turn_after}

abbrev pub pairs {ℓ κ} : {A : Type ℓ} {B : Type κ} → List A → List B → List (A × B)
pairs [] ys = []
pairs (x ∷ xs) [] = []
pairs (x ∷ xs) (y ∷ ys) = (x, y) ∷ pairs xs ys

abbrev pub zip_add : List ℕ → List ℕ → List ℕ
zip_add [] ns = []
zip_add (x ∷ xs) [] = []
zip_add (x ∷ xs) (n ∷ ns) = (x + n) ∷ zip_add xs ns

-- The lists of the batch have an entry for each of the members.
pub record HasMembers {F Schema : Type 0} (b : FlashCausalLmBatch F Schema) (ms : List (Member F))
    : Type 0 where
  pub requests : b.requests ≡ map (λ m. m.request) ms
  pub lengths : b.input_lengths ≡ map (λ m. m.input_length) ms
  pub prefixes : b.prefix_offsets ≡ map (λ m. m.prefix_offset) ms
  pub reads : b.read_offsets ≡ map (λ m. m.read_offset) ms
  pub criterias : b.stopping_criterias ≡ map (λ m. m.criteria) ms
  pub ids : b.all_input_ids ≡ map (λ m. m.all_input_ids) ms
  pub samples : b.next_token_chooser.do_sample ≡ map (λ m. m.do_sample) ms
  pub seeds : b.next_token_chooser.seeds ≡ map (λ m. m.seed) ms

pub map-map :
    {A B C : Type 0} (g : B → C) (h : A → B) (xs : List A)
    → map g (map h xs) ≡ map (λ x. g (h x)) xs
map-map g h [] = refl
map-map g h (x ∷ xs) = ap (λ ys. g (h x) ∷ ys) (map-map g h xs)

module _ {F : Type 0} where
  zip_members-pairs :
      (ms : List (Member F)) (accepted : List (List ℕ))
      → zip_members
          (map (λ m. m.request) ms)
          (map (λ m. m.input_length) ms)
          (map (λ m. m.prefix_offset) ms)
          (map (λ m. m.read_offset) ms)
          (map (λ m. m.criteria) ms)
          (map (λ m. m.all_input_ids) ms)
          (map (λ m. m.do_sample) ms)
          (map (λ m. m.seed) ms)
          accepted
        ≡ pairs ms accepted
  unfolding zip_members
  zip_members-pairs [] accepted = refl
  zip_members-pairs (m ∷ ms) [] = refl
  zip_members-pairs (m ∷ ms) (a ∷ accepted) =
      ap (λ (xs : List (Member F × List ℕ)). (m, a) ∷ xs) (zip_members-pairs ms accepted)

  pub map-pairs :
      {B : Type 0} (g : Member F → B) (h : Member F × List ℕ → B)
      → ((m : Member F) (a : List ℕ) → h (m, a) ≡ g m)
      → (ms : List (Member F)) (accepted : List (List ℕ)) → length accepted ≡ length ms
      → map g ms ≡ map h (pairs ms accepted)
  map-pairs g h same [] accepted e = refl
  map-pairs g h same (m ∷ ms) [] e = absurd (omega arith)
  map-pairs g h same (m ∷ ms) (a ∷ accepted) e =
      ap₂ (λ x xs. x ∷ xs) (sym (same m a)) (map-pairs g h same ms accepted (omega arith))

  pub new_length-pairs :
      (ms : List (Member F)) (accepted : List (List ℕ))
      → map new_length (pairs ms accepted)
        ≡ zip_add (map (λ m. m.input_length) ms) (map length accepted)
  new_length-pairs [] accepted = refl
  new_length-pairs (m ∷ ms) [] = refl
  new_length-pairs (m ∷ ms) (a ∷ accepted) =
      ap (λ (xs : List ℕ). (m.input_length + length a) ∷ xs) (new_length-pairs ms accepted)

pub split_ids-lengths :
    (ns next_ids : List ℕ) (accepted : List (List ℕ))
    → split_ids ns next_ids ≡ some accepted
    → map length accepted ≡ ns
unfolding split_ids
split_ids-lengths [] next_ids accepted h = ground (arith, h)
split_ids-lengths (n ∷ ns) next_ids accepted h =
    elim (Option-cases (split_ids ns (drop n next_ids))) [
      | inl e ↦ ground (arith, e, h)
      | inr (rest, e) ↦ ground (arith, e, h, split_ids-lengths ns (drop n next_ids) rest e)
    ]

pub add_each-zip_add :
    (xs ns ys : List ℕ) → add_each xs ns ≡ some ys → (ys ≡ zip_add xs ns) × (length xs ≡ length ns)
unfolding add_each
add_each-zip_add [] [] ys h = ground (arith, h)
add_each-zip_add [] (n ∷ ns) ys h = ground (arith, h)
add_each-zip_add (x ∷ xs) [] ys h = ground (arith, h)
add_each-zip_add (x ∷ xs) (n ∷ ns) ys h = elim (Option-cases (add_each xs ns)) [
  | inl e ↦ ground (arith, e, h)
  | inr (zs, e) ↦ ground (arith, e, h, add_each-zip_add xs ns zs e)
]

module _ {F Schema : Type 0} (e : Engine F Schema) where
  -- A member after the step.
  abbrev pub member_after : Member F × List ℕ → Member F
  member_after (m, accepted) = record m {
    input_length = m.input_length + length accepted;
    prefix_offset = (turn_after e (m, accepted)).prefix_offset;
    read_offset = (turn_after e (m, accepted)).read_offset;
    criteria = (turn_after e (m, accepted)).criteria;
    all_input_ids = (turn_after e (m, accepted)).ids;
  }

  pub members_of-pairs :
      (b : FlashCausalLmBatch F Schema) (ms : List (Member F)) (accepted : List (List ℕ))
      → HasMembers b ms
      → members_of b accepted ≡ pairs ms accepted
  members_of-pairs b ms accepted h =
      rw (h.requests, h.lengths, h.prefixes, h.reads, h.criterias, h.ids, h.samples, h.seeds)
        (zip_members-pairs ms accepted)

  same_after :
      {B : Type 0} (h : Member F × List ℕ → B) (g : Member F → B)
      → ((m : Member F) (a : List ℕ) → h (m, a) ≡ g (member_after (m, a)))
      → (ps : List (Member F × List ℕ)) → map h ps ≡ map g (map member_after ps)
  same_after h g same [] = refl
  same_after h g same ((m, a) ∷ ps) = ap₂ (λ x xs. x ∷ xs) (same m a) (same_after h g same ps)

  pub HasMembers-after :
      (b b' : FlashCausalLmBatch F Schema) (ms : List (Member F)) (accepted : List (List ℕ))
      → HasMembers b ms
      → length accepted ≡ length ms
      → b'.requests ≡ b.requests
      → b'.next_token_chooser.do_sample ≡ b.next_token_chooser.do_sample
      → b'.next_token_chooser.seeds ≡ b.next_token_chooser.seeds
      → b'.input_lengths ≡ map new_length (pairs ms accepted)
      → b'.prefix_offsets ≡ map (λ m. (turn_after e m).prefix_offset) (pairs ms accepted)
      → b'.read_offsets ≡ map (λ m. (turn_after e m).read_offset) (pairs ms accepted)
      → b'.all_input_ids ≡ map (λ m. (turn_after e m).ids) (pairs ms accepted)
      → b'.stopping_criterias ≡ map (λ m. (turn_after e m).criteria) (pairs ms accepted)
      → HasMembers b' (map member_after (pairs ms accepted))
  HasMembers-after b b' ms accepted h n r d s ls ps os is cs = record {
    requests =
        r
        ∙ h.requests
        ∙ map-pairs _ (λ m. (member_after m).request) (λ m a. refl) ms accepted n
        ∙ sym (map-map _ _ _);
    lengths = ls ∙ same_after new_length (λ m. m.input_length) (λ m a. refl) (pairs ms accepted);
    prefixes = ps ∙ same_after _ (λ m. m.prefix_offset) (λ m a. refl) (pairs ms accepted);
    reads = os ∙ same_after _ (λ m. m.read_offset) (λ m a. refl) (pairs ms accepted);
    criterias = cs ∙ same_after _ (λ m. m.criteria) (λ m a. refl) (pairs ms accepted);
    ids = is ∙ same_after _ (λ m. m.all_input_ids) (λ m a. refl) (pairs ms accepted);
    samples =
        d
        ∙ h.samples
        ∙ map-pairs _ (λ m. (member_after m).do_sample) (λ m a. refl) ms accepted n
        ∙ sym (map-map _ _ _);
    seeds =
        s
        ∙ h.seeds
        ∙ map-pairs _ (λ m. (member_after m).seed) (λ m a. refl) ms accepted n
        ∙ sym (map-map _ _ _);
  }
