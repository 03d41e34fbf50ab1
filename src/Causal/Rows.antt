-- ===== src/Causal/Rows.antt =====
-- Rows padded on the left, and what of a row the attention mask lets the model attend to.
use lorax.Prelude.{
  ℕ, zero, suc, ◌+◌, ◌-◌, ◌<◌, ◌≤◌, ◌≡◌, refl, sym, ap, ap₂, subst, ◌∙◌, arith, max, some, List, [],
  ◌∷◌, ◌++◌, map, ◌==◌, if◌then◌else◌, length, length-drop, replicate, drop, get_elem?, gather,
  gather-cons, append-nil, append_assoc,
}
use lorax.Flash.Filter.{maximum}

-- The row of a request with `n` tokens, padded to `m`, with room for `p` more.
unfoldable pub mask_row : ℕ → ℕ → ℕ → List ℕ
mask_row m p n = replicate (m - n) 0 ++ (replicate n 1 ++ replicate p 0)

pub replicate_join :
    {A : Type 0} (i j : ℕ) (x : A) (ys : List A)
    → replicate i x ++ (replicate j x ++ ys) ≡ replicate (i + j) x ++ ys
replicate_join zero j x ys = ap (λ k. replicate k x ++ ys) (omega arith)
replicate_join (suc i) j x ys =
    let e : suc i + j ≡ suc (i + j) = omega arith in
    ap (◌∷◌ x) (replicate_join i j x ys) ∙ ap (λ k. replicate k x ++ ys) (sym e)

-- A row with more padding.
pub mask_row_behind : (m p n : ℕ) → mask_row m 0 n ++ replicate p 0 ≡ mask_row m p n
unfolding mask_row
mask_row_behind m p n =
    let zeros : List ℕ = replicate (m - n) 0 in
    let ones : List ℕ = replicate n 1 in
    ap (λ row. zeros ++ row ++ replicate p 0) (append-nil ones)
    ∙ append_assoc zeros ones (replicate p 0)

pub mask_row_before :
    (m m' p n : ℕ) → n ≤ m → m ≤ m' → replicate (m' - m) 0 ++ mask_row m p n ≡ mask_row m' p n
unfolding mask_row
mask_row_before m m' p n h l =
    replicate_join (m' - m) (m - n) 0 (replicate n 1 ++ replicate p 0)
    ∙ ap (λ k. replicate k 0 ++ (replicate n 1 ++ replicate p 0)) (omega (arith, h, l))

-- The entries whose place in the mask is not 0.
unfoldable pub attend : {K : Type 0} → List ℕ → List K → List K
attend [] ks = []
attend (m ∷ mask) [] = []
attend (m ∷ mask) (k ∷ ks) = let rest = attend mask ks in if m == 0 then rest else k ∷ rest

unfoldable pub zip_with : {A B D : Type 0} → (A → B → D) → List A → List B → List D
zip_with f [] ys = []
zip_with f (x ∷ xs) [] = []
zip_with f (x ∷ xs) (y ∷ ys) = f x y ∷ zip_with f xs ys

unfoldable pub All : {A : Type 0} → (A → Type 0) → List A → Type 0
All P [] = Unit
All P (x ∷ xs) = P x × All P xs

attend-zeros :
    {K : Type 0} (j : ℕ) (mask : List ℕ) (ks : List K)
    → attend (replicate j 0 ++ mask) ks ≡ attend mask (drop j ks)
unfolding attend
attend-zeros zero mask ks = refl
attend-zeros (suc j) [] [] = refl
attend-zeros (suc j) (m ∷ mask) [] = refl
attend-zeros (suc j) mask (k ∷ ks) = attend-zeros j mask ks

attend-ones :
    {K : Type 0} (n : ℕ) (mask : List ℕ) (ks : List K)
    → length ks ≤ n
    → attend (replicate n 1 ++ mask) ks ≡ ks
unfolding attend
attend-ones zero [] [] h = refl
attend-ones zero (m ∷ mask) [] h = refl
attend-ones zero mask (k ∷ ks) h = absurd (omega (arith, h))
attend-ones (suc n) mask [] h = refl
attend-ones (suc n) mask (k ∷ ks) h = ap (◌∷◌ k) (attend-ones n mask ks (omega (arith, h)))

-- The past of a request with `n` tokens is the last `n - 1` entries.
pub attend-mask_row :
    {K : Type 0} (m p n : ℕ) (ks : List K)
    → length ks ≤ m - 1
    → n ≤ m
    → attend (mask_row m p n) ks ≡ drop (m - n) ks
unfolding mask_row
attend-mask_row m p n ks h l =
    attend-zeros (m - n) (replicate n 1 ++ replicate p 0) ks
    ∙ attend-ones n (replicate p 0) (drop (m - n) ks) (omega (arith, h, l, length-drop (m - n) ks))

pub map-All :
    {A : Type 0} (P Q : A → Type 0) (xs : List A) → ((x : A) → P x → Q x) → All P xs → All Q xs
unfolding All
map-All P Q [] f h = tt
map-All P Q (x ∷ xs) f (h, hs) = (f x h, map-All P Q xs f hs)

pub get_elem?-All :
    {A : Type 0} (P : A → Type 0) (xs : List A) (i : ℕ) (x : A)
    → All P xs
    → get_elem? xs i ≡ some x
    → P x
unfolding All
get_elem?-All P [] i x h e = absurd (ground (arith, e))
get_elem?-All P (y ∷ xs) zero x (h, hs) e = subst P (ground (arith, e)) h
get_elem?-All P (y ∷ xs) (suc i) x (h, hs) e = get_elem?-All P xs i x hs e

pub gather-All :
    {A : Type 0} (P : A → Type 0) (xs : List A) (is : List ℕ) (ys : List A)
    → All P xs
    → gather xs is ≡ some ys
    → All P ys
unfolding gather All
gather-All P xs [] ys h e = let k : [] ≡ ys = ground (arith, e) in subst (All P) k tt
gather-All P xs (i ∷ is) ys h e =
    let (y, rest, f, g, k) = gather-cons xs i is ys e in
    subst (All P) (sym k) (get_elem?-All P xs i y h f, gather-All P xs is rest h g)

pub maximum-All : (ns : List ℕ) → All (λ n. n ≤ maximum ns) ns
unfolding maximum All
maximum-All [] = tt
maximum-All (n ∷ ns) = (
  omega arith,
  map-All (λ k. k ≤ maximum ns) (λ k. k ≤ max n (maximum ns)) ns (λ k l. omega (arith, l))
      (maximum-All ns),
)

pub maximum-least : (m : ℕ) (ns : List ℕ) → All (λ n. n ≤ m) ns → maximum ns ≤ m
unfolding maximum All
maximum-least m [] h = omega arith
maximum-least m (n ∷ ns) (h, hs) = omega (arith, h, maximum-least m ns hs)

get_elem?-zip_with :
    {A B D : Type 0} (f : A → B → D) (xs : List A) (ys : List B) (i : ℕ) (x : A) (y : B)
    → get_elem? xs i ≡ some x
    → get_elem? ys i ≡ some y
    → get_elem? (zip_with f xs ys) i ≡ some (f x y)
unfolding zip_with
get_elem?-zip_with f [] ys i x y e g = absurd (ground (arith, e))
get_elem?-zip_with f (u ∷ xs) [] i x y e g = absurd (ground (arith, g))
get_elem?-zip_with f (u ∷ xs) (v ∷ ys) zero x y e g = ground (arith, e, g)
get_elem?-zip_with f (u ∷ xs) (v ∷ ys) (suc i) x y e g = get_elem?-zip_with f xs ys i x y e g

pub gather-zip_with :
    {A B D : Type 0} (f : A → B → D) (xs : List A) (ys : List B) (is : List ℕ) (xs' : List A)
    (ys' : List B)
    → gather xs is ≡ some xs'
    → gather ys is ≡ some ys'
    → gather (zip_with f xs ys) is ≡ some (zip_with f xs' ys')
unfolding gather zip_with
gather-zip_with f xs ys [] xs' ys' e g =
    let k : [] ≡ xs' = ground (arith, e) in subst (λ zs. some [] ≡ some (zip_with f zs ys')) k refl
gather-zip_with f xs ys (i ∷ is) xs' ys' e g =
    let (x, rest, p, q, r) = gather-cons xs i is xs' e in
    let (y, rest', p', q', r') = gather-cons ys i is ys' g in
    rw (get_elem?-zip_with f xs ys i x y p p', gather-zip_with f xs ys is rest rest' q q')
      (ap₂ (λ us vs. some (zip_with f us vs)) (sym r) (sym r'))

-- Two functions that agree on the pairs of two lists.
pub zip_with-eq :
    {A B D : Type 0} (f g : A → B → D) (P : A → Type 0) (Q : B → Type 0) (xs : List A) (ys : List B)
    → ((x : A) (y : B) → P x → Q y → f x y ≡ g x y)
    → All P xs
    → All Q ys
    → zip_with f xs ys ≡ zip_with g xs ys
unfolding zip_with All
zip_with-eq f g P Q [] ys same h k = refl
zip_with-eq f g P Q (x ∷ xs) [] same h k = refl
zip_with-eq f g P Q (x ∷ xs) (y ∷ ys) same (h, hs) (k, ks) =
    ap₂ (◌∷◌) (same x y h k) (zip_with-eq f g P Q xs ys same hs ks)

pub zip_with-map :
    {A A' B B' D : Type 0} (f : A' → B' → D) (g : A → A') (h : B → B') (xs : List A) (ys : List B)
    → zip_with f (map g xs) (map h ys) ≡ zip_with (λ x y. f (g x) (h y)) xs ys
unfolding zip_with
zip_with-map f g h [] ys = refl
zip_with-map f g h (x ∷ xs) [] = refl
zip_with-map f g h (x ∷ xs) (y ∷ ys) = ap (◌∷◌ (f (g x) (h y))) (zip_with-map f g h xs ys)

pub length-zip_with :
    {A B D : Type 0} (f : A → B → D) (xs : List A) (ys : List B)
    → length xs ≡ length ys
    → length (zip_with f xs ys) ≡ length xs
unfolding zip_with
length-zip_with f [] ys h = refl
length-zip_with f (x ∷ xs) [] h = absurd (omega (arith, h))
length-zip_with f (x ∷ xs) (y ∷ ys) h = ap suc (length-zip_with f xs ys (omega (arith, h)))

pub length-gather :
    {A : Type 0} (xs : List A) (is : List ℕ) (ys : List A)
    → gather xs is ≡ some ys
    → length ys ≡ length is
unfolding gather
length-gather xs [] ys h = let k : [] ≡ ys = ground (arith, h) in ap length (sym k)
length-gather xs (i ∷ is) ys h =
    let (y, rest, f, g, k) = gather-cons xs i is ys h in
    ap length k ∙ ap suc (length-gather xs is rest g)

pub All-map :
    {A B : Type 0} (P : B → Type 0) (f : A → B) (xs : List A)
    → All (λ x. P (f x)) xs
    → All P (map f xs)
unfolding All
All-map P f [] h = tt
All-map P f (x ∷ xs) (h, hs) = (h, All-map P f xs hs)

pub All-of_map :
    {A B : Type 0} (P : B → Type 0) (f : A → B) (xs : List A)
    → All P (map f xs)
    → All (λ x. P (f x)) xs
unfolding All
All-of_map P f [] h = tt
All-of_map P f (x ∷ xs) (h, hs) = (h, All-of_map P f xs hs)

pub append-All :
    {A : Type 0} (P : A → Type 0) (xs ys : List A) → All P xs → All P ys → All P (xs ++ ys)
unfolding All
append-All P [] ys h k = k
append-All P (x ∷ xs) ys (h, hs) k = (h, append-All P xs ys hs k)

pub zip_with-append :
    {A B D : Type 0} (f : A → B → D) (xs xs' : List A) (ys ys' : List B)
    → length xs ≡ length ys
    → zip_with f (xs ++ xs') (ys ++ ys') ≡ zip_with f xs ys ++ zip_with f xs' ys'
unfolding zip_with
zip_with-append f [] xs' [] ys' h = refl
zip_with-append f [] xs' (y ∷ ys) ys' h = absurd (omega (arith, h))
zip_with-append f (x ∷ xs) xs' [] ys' h = absurd (omega (arith, h))
zip_with-append f (x ∷ xs) xs' (y ∷ ys) ys' h =
    ap (◌∷◌ (f x y)) (zip_with-append f xs xs' ys ys' (omega (arith, h)))

pub maximum-grown : (ns : List ℕ) → All (λ n. 2 ≤ n) ns → 0 < length ns → 2 ≤ maximum ns
unfolding maximum All
maximum-grown [] h l = absurd (omega (arith, l))
maximum-grown (n ∷ ns) (h, hs) l = omega (arith, h)
