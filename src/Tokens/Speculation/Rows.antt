-- ===== src/Tokens/Speculation/Rows.antt =====
-- The indices of each row select the longest verified prefix of the row, and one token more.
use lorax.Prelude.{
  gather, ℕ, suc, ◌+◌, ◌*◌, ◌≤◌, ◌≡◌, refl, ap, ap₂, subst, arith, some, List, [], ◌∷◌, ◌++◌, map,
  append_assoc, ◌==◌, if◌then◌else◌, length, length-append, take, drop, get_elem?, Option-cases,
  inl, inr,
}
use lorax.Tokens.Speculation.{validate, accept, accept_row, accept_rows, speculative_accept}

-- How many speculated tokens agree with the chosen ones before the first that does not.
unfoldable pub agreeing : List ℕ → List ℕ → ℕ
agreeing [] spec = 0
agreeing (n ∷ ns) [] = 0
agreeing (n ∷ ns) (s ∷ spec) = let rest = agreeing ns spec in if n == s then suc rest else 0

-- The specification of one row.
abbrev pub kept_of : List ℕ → List ℕ → List ℕ
kept_of next spec = take (1 + agreeing next spec) next

get_elem?-middle :
    (pre : List ℕ) (x : ℕ) (post : List ℕ) → get_elem? (pre ++ x ∷ post) (length pre) ≡ some x
get_elem?-middle [] x post = refl
get_elem?-middle (p ∷ pre) x post = get_elem?-middle pre x post

gather-append :
    (xs is js ys zs : List ℕ)
    → gather xs is ≡ some ys
    → gather xs js ≡ some zs
    → gather xs (is ++ js) ≡ some (ys ++ zs)
unfolding gather
gather-append xs [] js ys zs p q = ground arith
gather-append xs (i ∷ is) js ys zs p q = elim (Option-cases (gather xs is)) [
  | inl e ↦ ground arith
  | inr (ys', e) ↦ ground (arith, gather-append xs is js ys' zs e q)
]

accept-count :
    (index accepted n : ℕ) (ns spec : List ℕ)
    → length spec ≤ length ns
    → (accept index accepted (validate (n ∷ ns) spec)).1 ≡ accepted + agreeing (n ∷ ns) spec
unfolding accept validate agreeing
accept-count index accepted n [] [] h = omega arith
accept-count index accepted n [] (s ∷ spec) h = absurd (omega arith)
accept-count index accepted n (m ∷ ns) [] h = omega arith
accept-count index accepted n (m ∷ ns) (s ∷ spec) h =
    ground (arith, accept-count (index + 1) (accepted + 1) m ns spec)

accept-gather :
    (pre : List ℕ) (accepted n : ℕ) (ns spec post : List ℕ)
    → length spec ≤ length ns
    → gather (pre ++ n ∷ (ns ++ post)) (accept (length pre) accepted (validate (n ∷ ns) spec)).0
      ≡ some (take (agreeing (n ∷ ns) spec) ns)
unfolding accept validate agreeing gather
accept-gather pre accepted n [] [] post h = refl
accept-gather pre accepted n [] (s ∷ spec) post h = absurd (omega arith)
accept-gather pre accepted n (m ∷ ns) [] post h = refl
accept-gather pre accepted n (m ∷ ns) (s ∷ spec) post h = ground (
  arith,
  accept-gather (pre ++ n ∷ []) (accepted + 1) m ns spec post,
  append_assoc pre (n ∷ []) (m ∷ (ns ++ post)),
  length-append pre (n ∷ []),
  get_elem?-middle (pre ++ n ∷ []) m (ns ++ post),
)

-- A row with one token more than it has speculated ones.
abbrev pub Row : Type 0
Row = ℕ × List ℕ × List ℕ

abbrev pub next_of : Row → List ℕ
next_of (n, ns, spec) = n ∷ ns

abbrev pub spec_of : Row → List ℕ
spec_of (n, ns, spec) = spec

-- Every row has `width` speculated tokens, and `width + 1` chosen ones.
abbrev pub IsBlock : ℕ → List Row → Type 0
IsBlock width [] = Unit
IsBlock width ((n, ns, spec) ∷ rows) =
    (length ns ≡ width) × (length spec ≡ width) × IsBlock width rows

abbrev pub next_ids_of : List Row → List ℕ
next_ids_of [] = []
next_ids_of (r ∷ rows) = next_of r ++ next_ids_of rows

abbrev pub kept_rows : List Row → List ℕ
kept_rows [] = []
kept_rows (r ∷ rows) = kept_of (next_of r) (spec_of r) ++ kept_rows rows

abbrev pub counts : List Row → List ℕ
counts [] = []
counts (r ∷ rows) = (1 + agreeing (next_of r) (spec_of r)) ∷ counts rows

take-length-append : (xs ys : List ℕ) → take (length xs) (xs ++ ys) ≡ xs
take-length-append [] ys = refl
take-length-append (x ∷ xs) ys = ap (◌∷◌ x) (take-length-append xs ys)

drop-length-append : (xs ys : List ℕ) → drop (length xs) (xs ++ ys) ≡ ys
drop-length-append [] ys = refl
drop-length-append (x ∷ xs) ys = drop-length-append xs ys

row-slice :
    (width i : ℕ) (pre row post : List ℕ)
    → length pre ≡ i * (1 + width)
    → length row ≡ 1 + width
    → take (1 + width) (drop (i * (1 + width)) (pre ++ (row ++ post))) ≡ row
row-slice width i pre row post p q =
    rw (← p, drop-length-append pre (row ++ post)) (rw (← q) (take-length-append row post))

accept_row-gather :
    (pre : List ℕ) (n : ℕ) (ns spec post : List ℕ)
    → length spec ≤ length ns
    → gather (pre ++ n ∷ (ns ++ post)) (accept_row (length pre) (n ∷ ns) spec).0
      ≡ some (kept_of (n ∷ ns) spec)
unfolding accept_row gather
accept_row-gather pre n ns spec post h =
    ground (arith, accept-gather pre 1 n ns spec post h, get_elem?-middle pre n (ns ++ post))

next-length :
    (width i n : ℕ) (pre ns : List ℕ)
    → length pre ≡ i * (1 + width)
    → length ns ≡ width
    → length (pre ++ n ∷ ns) ≡ (i + 1) * (1 + width)
next-length width i n pre ns p q = grind (arith, length-append pre (n ∷ ns))

accept_rows-gather :
    (width i : ℕ) (pre : List ℕ) (rows : List Row)
    → length pre ≡ i * (1 + width)
    → IsBlock width rows
    → gather
        (pre ++ next_ids_of rows)
        (accept_rows (1 + width) i (pre ++ next_ids_of rows) (map spec_of rows)).0
      ≡ some (kept_rows rows)
unfolding accept_rows
accept_rows-gather width i pre [] p b = unfold gather in refl
accept_rows-gather width i pre ((n, ns, spec) ∷ rows) p (bn, bs, b) =
    rw (row-slice width i pre (n ∷ ns) (next_ids_of rows) p (omega arith), ← p)
      (gather-append (pre ++ n ∷ (ns ++ next_ids_of rows)) _ _ _ _
        (accept_row-gather pre n ns spec (next_ids_of rows) (omega arith))
        (subst
          (λ xs.
            gather xs (accept_rows (1 + width) (i + 1) xs (map spec_of rows)).0
            ≡ some (kept_rows rows))
          (append_assoc pre (n ∷ ns) (next_ids_of rows))
          (accept_rows-gather width (i + 1) (pre ++ n ∷ ns) rows (next-length width i n pre ns p bn)
            b)))

accept_rows-counts :
    (width i : ℕ) (pre : List ℕ) (rows : List Row)
    → length pre ≡ i * (1 + width)
    → IsBlock width rows
    → (accept_rows (1 + width) i (pre ++ next_ids_of rows) (map spec_of rows)).1 ≡ counts rows
unfolding accept_rows accept_row
accept_rows-counts width i pre [] p b = refl
accept_rows-counts width i pre ((n, ns, spec) ∷ rows) p (bn, bs, b) =
    rw (row-slice width i pre (n ∷ ns) (next_ids_of rows) p (omega arith)) (
      ap₂ (λ (a : ℕ) (as' : List ℕ). a ∷ as') (accept-count _ 1 n ns spec (omega arith))
        (subst (λ xs. (accept_rows (1 + width) (i + 1) xs (map spec_of rows)).1 ≡ counts rows)
          (append_assoc pre (n ∷ ns) (next_ids_of rows))
          (accept_rows-counts width (i + 1) (pre ++ n ∷ ns) rows (next-length width i n pre ns p bn)
            b)))

-- Where every row has `width` speculated tokens and one chosen token more, the step keeps of each
-- row the chosen tokens up to and with the first that the speculation missed, and no other: all
-- indices are in range, and the counts are one more than the speculated tokens that agree.
pub speculative_accept-rows :
    (width : ℕ) (rows : List Row)
    → IsBlock width rows
    → speculative_accept (1 + width) (next_ids_of rows) (map spec_of rows)
      ≡ some (kept_rows rows, counts rows)
unfolding speculative_accept
speculative_accept-rows width rows b = rw (
  accept_rows-gather width 0 [] rows (omega arith) b,
  accept_rows-counts width 0 [] rows (omega arith) b,
)
