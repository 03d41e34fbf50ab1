-- ===== src/Flash/Filter/Layout.antt =====
-- A batch's slots are laid out request by request, and `filter` keeps them so.
use mathlib.Core.List.{flatten}
use lorax.Prelude.{
  ℕ, suc, ◌+◌, ◌≤◌, ◌≡◌, refl, ap, ap₂, arith, Bool, true, false, some, List, [], ◌∷◌, ◌++◌,
  append_assoc, if◌then◌else◌, length, length-append, length-take, take, get_elem?, gather,
}
use lorax.Tokens.Stopping.{StoppingCriteria}
use lorax.Tokens.Chooser.{true_indices}
use lorax.Flash.{FlashCausalLmBatch}
use lorax.Flash.Filter.{spans, starts}
use lorax.Flash.Filter.Mask.{Chunk, Fits, all_slots, kept_starts, kept_spans, kept_chunks}

-- The items whose flag is set.
abbrev pub keep {ℓ} : {A : Type ℓ} → List Bool → List A → List A
keep [] xs = []
keep (flag ∷ flags) [] = []
keep (flag ∷ flags) (x ∷ xs) = let rest = keep flags xs in if flag then x ∷ rest else rest

get_elem?-behind {ℓ} :
    {A : Type ℓ} (pre : List A) (x : A) (xs : List A)
    → get_elem? (pre ++ x ∷ xs) (length pre) ≡ some x
get_elem?-behind [] x xs = refl
get_elem?-behind (p ∷ pre) x xs = get_elem?-behind pre x xs

pub gather-keep_from {ℓ} :
    {A : Type ℓ} (pre xs : List A) (flags : List Bool)
    → length flags ≤ length xs
    → gather (pre ++ xs) (true_indices (length pre) flags) ≡ some (keep flags xs)
unfolding gather true_indices
gather-keep_from pre xs [] h = refl
gather-keep_from pre [] (flag ∷ flags) h = absurd (omega arith)
gather-keep_from pre (x ∷ xs) (true ∷ flags) h = ground (
  arith,
  get_elem?-behind pre x xs,
  gather-keep_from (pre ++ x ∷ []) xs flags,
  length-append pre (x ∷ []),
  append_assoc pre (x ∷ []) xs,
)
gather-keep_from pre (x ∷ xs) (false ∷ flags) h = ground (
  arith,
  gather-keep_from (pre ++ x ∷ []) xs flags,
  length-append pre (x ∷ []),
  append_assoc pre (x ∷ []) xs,
)

abbrev pub flags_of : List Chunk → List Bool
flags_of [] = []
flags_of ((kept, n, xs) ∷ rows) = kept ∷ flags_of rows

abbrev pub spans_of : List Chunk → List ℕ
spans_of [] = []
spans_of ((kept, n, xs) ∷ rows) = n ∷ spans_of rows

abbrev pub lengths_of : List Chunk → List ℕ
lengths_of [] = []
lengths_of ((kept, n, xs) ∷ rows) = length xs ∷ lengths_of rows

-- The rows that are left: of the kept requests, with the slots that they still need.
abbrev pub left : List Chunk → List Chunk
left [] = []
left ((true, n, xs) ∷ rows) = (true, n, take n xs) ∷ left rows
left ((false, n, xs) ∷ rows) = left rows

-- The slots of the batch are those of its requests in turn; each request's start is where its own
-- begin, and it has as many as it still needs.
pub record IsLaidOut {F Schema : Type 0} (b : FlashCausalLmBatch F Schema) (rows : List Chunk)
    : Type 0 where
  pub slots : b.slots ≡ all_slots rows
  pub starts : b.start_slots ≡ starts 0 (lengths_of rows)
  pub needs : spans b.input_lengths b.stopping_criterias ≡ spans_of rows
  pub lengths : length b.input_lengths ≡ length rows
  pub criterias : length b.stopping_criterias ≡ length rows
  pub fits : Fits rows

pub kept_starts-keep :
    (i : ℕ) (rows : List Chunk)
    → keep (flags_of rows) (starts i (lengths_of rows)) ≡ kept_starts i rows
unfolding starts
kept_starts-keep i [] = refl
kept_starts-keep i ((true, n, xs) ∷ rows) =
    ap (λ (ns : List ℕ). i ∷ ns) (kept_starts-keep (i + length xs) rows)
kept_starts-keep i ((false, n, xs) ∷ rows) = kept_starts-keep (i + length xs) rows

pub kept_spans-keep : (rows : List Chunk) → keep (flags_of rows) (spans_of rows) ≡ kept_spans rows
kept_spans-keep [] = refl
kept_spans-keep ((true, n, xs) ∷ rows) = ap (λ (ns : List ℕ). n ∷ ns) (kept_spans-keep rows)
kept_spans-keep ((false, n, xs) ∷ rows) = kept_spans-keep rows

spans-nil : (ns : List ℕ) → spans ns [] ≡ []
unfolding spans
spans-nil [] = refl
spans-nil (n ∷ ns) = refl

pub spans-keep :
    (flags : List Bool) (ns : List ℕ) (ss : List StoppingCriteria)
    → spans (keep flags ns) (keep flags ss) ≡ keep flags (spans ns ss)
unfolding spans
spans-keep [] ns ss = refl
spans-keep (flag ∷ flags) [] ss = refl
spans-keep (true ∷ flags) (n ∷ ns) [] = refl
spans-keep (false ∷ flags) (n ∷ ns) [] = spans-nil (keep flags ns)
spans-keep (flag ∷ flags) (n ∷ ns) (s ∷ ss) = ground (arith, spans-keep flags ns ss)

length-take_le : (n : ℕ) (xs : List ℕ) → n ≤ length xs → length (take n xs) ≡ n
length-take_le n xs h = omega (arith, length-take n xs)

pub lengths-left : (rows : List Chunk) → Fits rows → lengths_of (left rows) ≡ kept_spans rows
lengths-left [] h = refl
lengths-left ((true, n, xs) ∷ rows) h =
    ap₂ (λ (m : ℕ) (ns : List ℕ). m ∷ ns) (length-take_le n xs h.0) (lengths-left rows h.1)
lengths-left ((false, n, xs) ∷ rows) h = lengths-left rows h.1

pub spans-left : (rows : List Chunk) → spans_of (left rows) ≡ kept_spans rows
spans-left [] = refl
spans-left ((true, n, xs) ∷ rows) = ap (λ (ns : List ℕ). n ∷ ns) (spans-left rows)
spans-left ((false, n, xs) ∷ rows) = spans-left rows

pub Fits-left : (rows : List Chunk) → Fits rows → Fits (left rows)
Fits-left [] h = tt
Fits-left ((true, n, xs) ∷ rows) h = (omega (arith, length-take_le n xs h.0), Fits-left rows h.1)
Fits-left ((false, n, xs) ∷ rows) h = Fits-left rows h.1

pub slots-left : (rows : List Chunk) → flatten (kept_chunks rows) ≡ all_slots (left rows)
unfolding flatten
slots-left [] = refl
slots-left ((true, n, xs) ∷ rows) = ap (◌++◌ (take n xs)) (slots-left rows)
slots-left ((false, n, xs) ∷ rows) = slots-left rows

pub length-keep {ℓ} :
    {A : Type ℓ} (rows : List Chunk) (xs : List A)
    → length xs ≡ length rows
    → length (keep (flags_of rows) xs) ≡ length (left rows)
length-keep [] xs h = refl
length-keep ((kept, n, ys) ∷ rows) [] h = absurd (omega arith)
length-keep ((kept, n, ys) ∷ rows) (x ∷ xs) h = ground (arith, length-keep rows xs)

pub length-flags : (rows : List Chunk) → length (flags_of rows) ≡ length rows
length-flags [] = refl
length-flags (r ∷ rows) = ap suc (length-flags rows)

pub length-starts : (i : ℕ) (rows : List Chunk) → length (starts i (lengths_of rows)) ≡ length rows
unfolding starts
length-starts i [] = refl
length-starts i ((kept, n, xs) ∷ rows) = ap suc (length-starts (i + length xs) rows)
