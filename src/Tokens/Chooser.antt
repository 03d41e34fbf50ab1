-- ===== src/Tokens/Chooser.antt =====
-- `HeterogeneousNextTokenChooser`, `HeterogeneousSampling` and `NextTokenChooser` of
-- server/lorax_server/utils/tokens.py and the warpers' `filter` of
-- server/lorax_server/utils/logits_process.py: which processors a batch gets, and what a filter of
-- the batch leaves of them. What the processors do to scores is torch's and is not modelled.
pub mod Laws
pub mod Filter
pub mod Filtered
use mathlib.Core.Option
use lorax.Prelude.{
  ℕ, zero, suc, ◌+◌, ◌≡◌, Bool, true, false, ◌&&◌, ◌||◌, not, Option, none, some, List, [], ◌∷◌,
  ◌++◌, map, ◌==◌, if◌then◌else◌, lookup, gather, get_elem?, ◌>>=◌,
}

-- The tests that the code makes on a float: `x == 0`, `x == 1.0` and `x < 1.0`.
pub record FloatTests (F : Type 0) : Type 0 where
  pub is_zero : F → Bool
  pub is_one : F → Bool
  pub below_one : F → Bool

abbrev pub any {ℓ} : {A : Type ℓ} → (A → Bool) → List A → Bool
any p [] = false
any p (x ∷ xs) = p x || any p xs

-- `[sample or p(x) for x, sample in zip(xs, do_sample)]`
abbrev pub or_sample : {A : Type 0} → (A → Bool) → List A → List Bool → List Bool
or_sample p [] samples = []
or_sample p (x ∷ xs) [] = []
or_sample p (x ∷ xs) (sample ∷ samples) = (sample || p x) ∷ or_sample p xs samples

-- `{i: … for i, flag in enumerate(flags) if flag}`: the keys.
unfoldable pub true_indices : ℕ → List Bool → List ℕ
true_indices i [] = []
true_indices i (flag ∷ flags) =
    let rest = true_indices (i + 1) flags in if flag then i ∷ rest else rest

-- HeterogeneousSampling. A `Sampling` object is known by its seed.
pub record Sampling : Type 0 where
  pub greedy_indices : List ℕ
  pub sampling_mapping : List (ℕ × ℕ)

abbrev pub add_choice : Bool → ℕ → ℕ → Sampling → Sampling
add_choice true i seed s = record s { sampling_mapping = (i, seed) ∷ s.sampling_mapping }
add_choice false i seed s = record s { greedy_indices = i ∷ s.greedy_indices }

pub new_sampling : ℕ → List Bool → List ℕ → Sampling
new_sampling i [] seeds = record { greedy_indices = []; sampling_mapping = [] }
new_sampling i (sample ∷ do_sample) [] = record { greedy_indices = []; sampling_mapping = [] }
new_sampling i (sample ∷ do_sample) (seed ∷ seeds) =
    add_choice sample i seed (new_sampling (i + 1) do_sample seeds)

abbrev keep_choice : Option ℕ → ℕ → Sampling → Sampling
keep_choice (some seed) i s = add_choice true i seed s
keep_choice none i s = add_choice false i 0 s

-- `HeterogeneousSampling.filter`
unfoldable pub filter_sampling : List (ℕ × ℕ) → ℕ → List ℕ → Sampling
unfolding lookup
filter_sampling mapping i [] = record { greedy_indices = []; sampling_mapping = [] }
filter_sampling mapping i (idx ∷ indices) =
    keep_choice (lookup idx mapping) i (filter_sampling mapping (i + 1) indices)

pub data Choice : Type 0 where
  greedy : Choice
  heterogeneous : Sampling → Choice

pub data Warper (F : Type 0) : Type 0 where
  temperature_warper : List F → Warper F
  top_k_warper : List ℕ → Warper F
  top_p_warper : List F → Warper F
  typical_warper : List F → Warper F

-- The request parameters, a list for each (`from_pb`).
pub record Parameters (F : Type 0) : Type 0 where
  pub watermark : List Bool
  pub temperature : List F
  pub repetition_penalty : List F
  pub top_k : List ℕ
  pub top_p : List F
  pub typical_p : List F
  pub do_sample : List Bool
  pub seeds : List ℕ

-- `Schema` is an OutlinesLogitsProcessor; `schema_processor` has one or none for each request.
pub record Chooser (F Schema : Type 0) : Type 0 where
  pub watermark_processor : Option (List ℕ)
  pub repetition_processor : Option (List F)
  pub schema_processor : Option (List (Option Schema))
  pub warpers : List (Warper F)
  pub choice : Choice
  pub seeds : List ℕ
  pub do_sample : List Bool

abbrev pub is_some {ℓ} : {A : Type ℓ} → Option A → Bool
is_some none = false
is_some (some a) = true

abbrev pub nonzero : ℕ → Bool
nonzero x = not (x == 0)

-- `HeterogeneousProcessorWrapper.filter`: the new positions of the kept keys.
unfoldable pub filter_keys : List ℕ → ℕ → List ℕ → List ℕ
filter_keys keys i [] = []
filter_keys keys i (idx ∷ indices) =
    let rest = filter_keys keys (i + 1) indices in
    if any (λ k. k == idx) keys then i ∷ rest else rest

abbrev pub nonempty : List ℕ → Option (List ℕ)
nonempty [] = none
nonempty (k ∷ ks) = some (k ∷ ks)

-- `filter` of an optional processor over rows: gone if it was none, or if no kept row needs it.
abbrev pub filter_rows :
    {A : Type 0} → (A → Bool) → List ℕ → Option (List A) → Option (Option (List A))
filter_rows p indices none = some none
filter_rows p indices (some xs) = do
  kept ← gather xs indices
  some (if any p kept then some kept else none)

-- `self.choice.filter(indices)`: Greedy has no such attribute, which is an AttributeError.
abbrev pub filter_choice : List Bool → List ℕ → Choice → Option Choice
filter_choice do_sample indices greedy = if any (λ flag. flag) do_sample then none else some greedy
filter_choice do_sample indices (heterogeneous s) =
    if any (λ flag. flag) do_sample
    then some (heterogeneous (filter_sampling s.sampling_mapping 0 indices))
    else some greedy

-- One of the four tests of `__init__`, which adds to the sample flags and appends a warper.
abbrev pub add_warper :
    {A F : Type 0}
    → (A → Bool)
    → (List A → Warper F)
    → List A
    → List (Warper F) × List Bool
    → List (Warper F) × List Bool
add_warper p make xs (warpers, do_sample) =
    if any p xs then (warpers ++ make xs ∷ [], or_sample p xs do_sample) else (warpers, do_sample)

-- `filter` of a warper: itself on the kept rows, or nothing; `none` is an IndexError.
abbrev pub keep_if :
    {A F : Type 0} → (A → Bool) → (List A → Warper F) → Option (List A) → Option (Option (Warper F))
keep_if p make none = none
keep_if p make (some xs) = some (if any p xs then some (make xs) else none)

abbrev pub cons_some {ℓ} : {A : Type ℓ} → Option A → List A → List A
cons_some none ws = ws
cons_some (some w) ws = w ∷ ws

module _ {F : Type 0} (f : FloatTests F) where
  abbrev pub warms : F → Bool
  warms x = not (f.is_one x) && not (f.is_zero x)

  abbrev pub not_one : F → Bool
  not_one x = not (f.is_one x)

  unfoldable pub warpers_of : Parameters F → List (Warper F) × List Bool
  warpers_of p = add_warper f.below_one typical_warper p.typical_p (
      add_warper f.below_one top_p_warper p.top_p (
        add_warper nonzero top_k_warper p.top_k
          (add_warper warms temperature_warper p.temperature ([], p.do_sample))))

  pub filter_warper : List ℕ → Warper F → Option (Option (Warper F))
  filter_warper indices (temperature_warper xs) =
      keep_if not_one temperature_warper (gather xs indices)
  filter_warper indices (top_k_warper xs) = keep_if nonzero top_k_warper (gather xs indices)
  filter_warper indices (top_p_warper xs) = keep_if f.below_one top_p_warper (gather xs indices)
  filter_warper indices (typical_warper xs) = keep_if not_one typical_warper (gather xs indices)

  unfoldable pub filter_warpers : List ℕ → List (Warper F) → Option (List (Warper F))
  unfolding filter_warper
  filter_warpers indices [] = some []
  filter_warpers indices (w ∷ ws) = do
    w' ← filter_warper indices w
    ws' ← filter_warpers indices ws
    some (cons_some w' ws')

module _ {F Schema : Type 0} (f : FloatTests F) where
  -- `__init__`. The schema processors are those of the generation so far, when batches are joined,
  -- or were compiled from the requests' schemas. `from_schemas` leaves a schema out only if it has
  -- no tokenizer; the callers that have schemas compiled pass a tokenizer for each request too.
  unfoldable pub new : Parameters F → List (Option Schema) → Chooser F Schema
  unfolding warpers_of true_indices new_sampling
  new p sequence_processors =
      let (warpers, do_sample) = warpers_of f p in
      record {
        watermark_processor =
            if any (λ flag. flag) p.watermark then some (true_indices 0 p.watermark) else none;
        repetition_processor =
            if any (not_one f) p.repetition_penalty then some p.repetition_penalty else none;
        schema_processor =
            if any is_some sequence_processors then some sequence_processors else none;
        warpers = warpers;
        choice =
            if any (λ flag. flag) do_sample
            then heterogeneous (new_sampling 0 do_sample p.seeds)
            else greedy;
        seeds = p.seeds;
        do_sample = do_sample;
      }

  unfoldable pub filter : List ℕ → Chooser F Schema → Option (Chooser F Schema)
  unfolding filter_warpers filter_keys filter_sampling
  filter indices c = do
    repetition ← filter_rows (not_one f) indices c.repetition_processor
    schema ← filter_rows is_some indices c.schema_processor
    warpers ← filter_warpers f indices c.warpers
    seeds ← gather c.seeds indices
    do_sample ← gather c.do_sample indices
    choice ← filter_choice do_sample indices c.choice
    some (record {
      watermark_processor = c.watermark_processor >>= λ keys. nonempty (filter_keys keys 0 indices);
      repetition_processor = repetition;
      schema_processor = schema;
      warpers = warpers;
      choice = choice;
      seeds = seeds;
      do_sample = do_sample;
    })

-- NextTokenChooserParameters of a request.
pub record RequestParameters (F : Type 0) : Type 0 where
  pub watermark : Bool
  pub temperature : F
  pub repetition_penalty : F
  pub top_k : ℕ
  pub top_p : F
  pub typical_p : F
  pub do_sample : Bool
  pub seed : ℕ

-- The lists that `from_pb` hands to `__init__`.
unfoldable pub from_pb : {F : Type 0} → List (RequestParameters F) → Parameters F
from_pb pb = record {
  watermark = map (λ r. r.watermark) pb;
  temperature = map (λ r. r.temperature) pb;
  repetition_penalty = map (λ r. r.repetition_penalty) pb;
  top_k = map (λ r. r.top_k) pb;
  top_p = map (λ r. r.top_p) pb;
  typical_p = map (λ r. r.typical_p) pb;
  do_sample = map (λ r. r.do_sample) pb;
  seeds = map (λ r. r.seed) pb;
}
