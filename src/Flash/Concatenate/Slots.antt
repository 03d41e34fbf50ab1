-- ===== src/Flash/Concatenate/Slots.antt =====
-- The slots of batches that are joined.
use mathlib.Core.Option
use lorax.Prelude.{
  ℕ, ◌+◌, ◌≡◌, refl, ap, ap₂, sym, ◌∙◌, arith, none, some, List, [], ◌∷◌, ◌++◌, map, length,
  length-append, append_assoc, Option-cases, inl, inr,
}
use lorax.Tokens.Stopping.{StoppingCriteria}
use lorax.Tokens.Chooser.{FloatTests}
use lorax.Flash.{FlashCausalLmBatch}
use lorax.Flash.Filter.{spans, starts}
use lorax.Flash.Filter.Mask.{Chunk, Fits, all_slots}
use lorax.Flash.Filter.Layout.{IsLaidOut, lengths_of, spans_of}
use lorax.Flash.Concatenate.{offset_starts, extend, concatenate, tensors_of, assemble}

all_slots-append :
    (rows more : List Chunk) → all_slots (rows ++ more) ≡ all_slots rows ++ all_slots more
all_slots-append [] more = refl
all_slots-append ((kept, n, xs) ∷ rows) more =
    ground (arith, all_slots-append rows more, append_assoc xs (all_slots rows) (all_slots more))

lengths_of-append :
    (rows more : List Chunk) → lengths_of (rows ++ more) ≡ lengths_of rows ++ lengths_of more
lengths_of-append [] more = refl
lengths_of-append ((kept, n, xs) ∷ rows) more = ap (◌∷◌ (length xs)) (lengths_of-append rows more)

spans_of-append :
    (rows more : List Chunk) → spans_of (rows ++ more) ≡ spans_of rows ++ spans_of more
spans_of-append [] more = refl
spans_of-append ((kept, n, xs) ∷ rows) more = ap (◌∷◌ n) (spans_of-append rows more)

Fits-append : (rows more : List Chunk) → Fits rows → Fits more → Fits (rows ++ more)
Fits-append [] more h k = k
Fits-append ((kept, n, xs) ∷ rows) more h k = (h.0, Fits-append rows more h.1 k)

spans-append :
    (ns ms : List ℕ) (ss ts : List StoppingCriteria)
    → length ns ≡ length ss
    → spans (ns ++ ms) (ss ++ ts) ≡ spans ns ss ++ spans ms ts
unfolding spans
spans-append [] ms [] ts h = refl
spans-append [] ms (s ∷ ss) ts h = absurd (omega arith)
spans-append (n ∷ ns) ms [] ts h = absurd (omega arith)
spans-append (n ∷ ns) ms (s ∷ ss) ts h = ground (arith, spans-append ns ms ss ts)

-- The starts of the requests of one batch, moved behind `total` slots.
starts-offset :
    (total from : ℕ) (ns : List ℕ)
    → map (λ i. i + total) (starts from ns) ≡ starts (from + total) ns
unfolding starts
starts-offset total from [] = refl
starts-offset total from (n ∷ ns) = ground (arith, starts-offset total (from + n) ns)

starts-shift : (total : ℕ) (ns : List ℕ) → map (λ i. i + total) (starts 0 ns) ≡ starts total ns
starts-shift total ns = starts-offset total 0 ns ∙ ap (λ (k : ℕ). starts k ns) (omega arith)

starts-append :
    (from : ℕ) (rows : List Chunk) (ms : List ℕ)
    → starts from (lengths_of rows ++ ms)
      ≡ starts from (lengths_of rows) ++ starts (from + length (all_slots rows)) ms
unfolding starts
starts-append from [] ms = ground arith
starts-append from ((kept, n, xs) ∷ rows) ms =
    ground (arith, starts-append (from + length xs) rows ms, length-append xs (all_slots rows))

pub some≢none {ℓ} : {A : Type ℓ} (a : A) → ¬ (some a ≡ none)
some≢none a h = ground arith

pub some-inj {ℓ} : {A : Type ℓ} (a b : A) → some a ≡ some b → a ≡ b
some-inj a b h = ap (λ o. elim o [ some x ↦ x | none ↦ a ]) h

length_of_both :
    {A B : Type 0} (xs ys : List A) (zs ws : List B)
    → length xs ≡ length zs
    → length ys ≡ length ws
    → length (xs ++ ys) ≡ length (zs ++ ws)
length_of_both xs ys zs ws h k = omega (arith, length-append xs ys, length-append zs ws)

module _ {F Schema : Type 0} where
  -- Batches, each with the rows of its requests.
  abbrev pub batches_of :
      List (FlashCausalLmBatch F Schema × List Chunk) → List (FlashCausalLmBatch F Schema)
  batches_of [] = []
  batches_of ((b, rows) ∷ bs) = b ∷ batches_of bs

  abbrev pub joined_rows : List (FlashCausalLmBatch F Schema × List Chunk) → List Chunk
  joined_rows [] = []
  joined_rows ((b, rows) ∷ bs) = rows ++ joined_rows bs

  abbrev pub AllLaidOut : List (FlashCausalLmBatch F Schema × List Chunk) → Type 0
  AllLaidOut [] = Unit
  AllLaidOut ((b, rows) ∷ bs) = IsLaidOut b rows × AllLaidOut bs

  extend-slots :
      (bs : List (FlashCausalLmBatch F Schema × List Chunk))
      → AllLaidOut bs
      → extend (λ b. b.slots) (batches_of bs) ≡ all_slots (joined_rows bs)
  unfolding extend
  extend-slots [] h = refl
  extend-slots ((b, rows) ∷ bs) h =
      ap₂ (λ (xs ys : List ℕ). xs ++ ys) h.0.slots (extend-slots bs h.1)
      ∙ sym (all_slots-append rows (joined_rows bs))

  offset_starts-eq :
      (total : ℕ) (bs : List (FlashCausalLmBatch F Schema × List Chunk))
      → AllLaidOut bs
      → offset_starts total (batches_of bs) ≡ starts total (lengths_of (joined_rows bs))
  unfolding offset_starts
  offset_starts-eq total [] h = unfold starts in refl
  offset_starts-eq total ((b, rows) ∷ bs) h =
      let here = h.0 in
      rw
        (
          here.starts,
          here.slots,
          starts-shift total (lengths_of rows),
          lengths_of-append rows (joined_rows bs),
          starts-append total rows (lengths_of (joined_rows bs)),
        )
        (ap (λ (xs : List ℕ). starts total (lengths_of rows) ++ xs)
          (offset_starts-eq (total + length (all_slots rows)) bs h.1))

  abbrev Needed : List (FlashCausalLmBatch F Schema × List Chunk) → Type 0
  Needed bs =
      (spans (extend (λ b. b.input_lengths) (batches_of bs))
          (extend (λ b. b.stopping_criterias) (batches_of bs))
        ≡ spans_of (joined_rows bs))
      × (length (extend (λ b. b.input_lengths) (batches_of bs)) ≡ length (joined_rows bs))
      × (length (extend (λ b. b.stopping_criterias) (batches_of bs)) ≡ length (joined_rows bs))
      × Fits (joined_rows bs)

  AllLaidOut-Needed :
      (bs : List (FlashCausalLmBatch F Schema × List Chunk)) → AllLaidOut bs → Needed bs
  unfolding extend
  AllLaidOut-Needed [] h = unfold spans in (refl, refl, refl, tt)
  AllLaidOut-Needed ((b, rows) ∷ bs) h =
      let here = h.0 in
      let (e, ns, ss, fits) = AllLaidOut-Needed bs h.1 in
      (
        spans-append b.input_lengths _ b.stopping_criterias _ (here.lengths ∙ sym here.criterias)
            ∙ ap₂ (λ (xs ys : List ℕ). xs ++ ys) here.needs e
            ∙ sym (spans_of-append rows (joined_rows bs)),
        length_of_both b.input_lengths _ rows _ here.lengths ns,
        length_of_both b.stopping_criterias _ rows _ here.criterias ss,
        Fits-append rows (joined_rows bs) here.fits fits,
      )

  concatenate-parts :
      (f : FloatTests F) (bs : List (FlashCausalLmBatch F Schema)) (c : FlashCausalLmBatch F Schema)
      → concatenate f bs ≡ some c
      → (c.slots ≡ extend (λ b. b.slots) bs)
        × (c.start_slots ≡ offset_starts 0 bs)
        × (c.input_lengths ≡ extend (λ b. b.input_lengths) bs)
        × (c.stopping_criterias ≡ extend (λ b. b.stopping_criterias) bs)
  unfolding concatenate assemble
  concatenate-parts f [] c h = ground arith
  concatenate-parts f (first ∷ others) c h =
      elim (Option-cases (tensors_of first (first ∷ others))) [
        | inl e ↦ absurd (some≢none c (sym h ∙ ap (Option.map (assemble f first others)) e))
        | inr (t, e) ↦
            let p : c ≡ assemble f first others t =
              some-inj c _ (sym h ∙ ap (Option.map (assemble f first others)) e) in
            (
              ap (λ b. b.slots) p,
              ap (λ b. b.start_slots) p,
              ap (λ b. b.input_lengths) p,
              ap (λ b. b.stopping_criterias) p,
            )
      ]

  -- If each batch is laid out request by request and `concatenate` succeeds, the joined batch is
  -- laid out by the requests of all the batches in turn: its slots are theirs, each request's
  -- start is where its own slots now begin, and each has the slots that it still needs.
  pub concatenate-IsLaidOut :
      (f : FloatTests F) (bs : List (FlashCausalLmBatch F Schema × List Chunk))
      (c : FlashCausalLmBatch F Schema)
      → AllLaidOut bs
      → concatenate f (batches_of bs) ≡ some c
      → IsLaidOut c (joined_rows bs)
  concatenate-IsLaidOut f bs c h e =
      let (slots, start_slots, input_lengths, criterias) =
        concatenate-parts f (batches_of bs) c e in
      let (needs, ns, ss, fits) = AllLaidOut-Needed bs h in
      record {
        slots = slots ∙ extend-slots bs h;
        starts = start_slots ∙ offset_starts-eq 0 bs h;
        needs = ap₂ spans input_lengths criterias ∙ needs;
        lengths = ap length input_lengths ∙ ns;
        criterias = ap length criterias ∙ ss;
        fits = fits;
      }
