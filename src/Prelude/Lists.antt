-- ===== src/Prelude/Lists.antt =====
-- Lists of numbers: membership, distinctness, the last element and the length.
use mathlib.Core.Bool.{false≢true}
use mathlib.Core.Path.{subst}
use pcd_file_system.Prelude.{
  ℕ, suc, ◌+◌, Bool-cases, inl, inr, ◌≡◌, ◌≢◌, refl, Bool, true, false, ◌||◌, List, [], ◌∷◌, ◌++◌,
  arith, sym, ◌∙◌, ◌==◌, ap,
}
use mathlib.Core.Bool.{false≢true}
use mathlib.Core.Path.{subst}

abbrev pub has : ℕ → List ℕ → Bool
has a [] = false
has a (x ∷ xs) = (a == x) || has a xs

abbrev pub Distinct : List ℕ → Type 0
Distinct [] = Unit
Distinct (x ∷ xs) = (has x xs ≡ false) × Distinct xs

-- the last of a list that is not empty
abbrev pub last : ℕ → List ℕ → ℕ
last x [] = x
last x (y ∷ ys) = last y ys

pub has-append : (a : ℕ) (xs ys : List ℕ) → has a (xs ++ ys) ≡ (has a xs || has a ys)
has-append a [] ys = refl
has-append a (x ∷ xs) ys = ground (arith, has-append a xs ys)

pub has-last : (x : ℕ) (xs : List ℕ) → has (last x xs) (x ∷ xs) ≡ true
has-last x [] = ground arith
has-last x (y ∷ ys) = ground (arith, has-last y ys)

pub last-append : (x y : ℕ) (xs ys : List ℕ) → last x (xs ++ y ∷ ys) ≡ last y ys
last-append x y [] ys = refl
last-append x y (z ∷ xs) ys = last-append z y xs ys

pub Distinct-append : (x : ℕ) (xs ys : List ℕ) → Distinct (xs ++ x ∷ ys) → Distinct (x ∷ xs ++ ys)
Distinct-append x [] ys d = d
Distinct-append x (z ∷ xs) ys d =
    let (out, d') = Distinct-append x xs ys d.1 in
    ground (arith, has-append z xs (x ∷ ys), has-append z xs ys, out, d')

pub Distinct-front : (xs ys : List ℕ) → Distinct (xs ++ ys) → Distinct xs
Distinct-front [] ys d = tt
Distinct-front (x ∷ xs) ys d = ground (arith, has-append x xs ys, Distinct-front xs ys d.1)

pub Distinct-back : (xs ys : List ℕ) → Distinct (xs ++ ys) → Distinct ys
Distinct-back [] ys d = d
Distinct-back (x ∷ xs) ys d = Distinct-back xs ys d.1

pub Distinct-apart :
    (xs ys : List ℕ) (a : ℕ) → Distinct (xs ++ ys) → has a xs ≡ true → has a ys ≡ false
Distinct-apart [] ys a d h = cc
Distinct-apart (x ∷ xs) ys a d h =
    ground (arith, has-append x xs ys, has-append a xs ys, Distinct-apart xs ys a d.1)

pub has_ne : (a b : ℕ) (xs : List ℕ) → has a xs ≡ true → has b xs ≡ false → a ≢ b
has_ne a b xs i o e = false≢true (sym o ∙ subst (λ c. has c xs ≡ true) e i)

pub Distinct-apart_back :
    (xs ys : List ℕ) (a : ℕ) → Distinct (xs ++ ys) → has a ys ≡ true → has a xs ≡ false
Distinct-apart_back xs ys a d h = ground (arith, Distinct-apart xs ys a d)

-- A member splits the list.
pub has-split :
    (a : ℕ) (xs : List ℕ) → has a xs ≡ true → (us : List ℕ) × (vs : List ℕ) × (xs ≡ us ++ a ∷ vs)
has-split a [] i = cc
has-split a (x ∷ xs) i = elim (Bool-cases (a == x)) [
  | inl here ↦ let e : x ≡ a = ground arith in ([], xs, rw e)
  | inr there ↦ let (us, vs, e) = has-split a xs (ground arith) in (x ∷ us, vs, rw e)
]

-- A list that is not empty ends in some node.
pub snoc-split : (z : ℕ) (xs : List ℕ) → (us : List ℕ) × (n : ℕ) × (z ∷ xs ≡ us ++ n ∷ [])
snoc-split z [] = ([], z, refl)
snoc-split z (x ∷ xs) = let (us, n, e) = snoc-split x xs in (z ∷ us, n, rw e)

abbrev pub length : List ℕ → ℕ
length [] = 0
length (x ∷ xs) = suc (length xs)

pub length-append : (xs ys : List ℕ) → length (xs ++ ys) ≡ length xs + length ys
length-append [] ys = omega arith
length-append (x ∷ xs) ys = omega (arith, length-append xs ys)

pub append_assoc : (xs ys zs : List ℕ) → (xs ++ ys) ++ zs ≡ xs ++ (ys ++ zs)
append_assoc [] ys zs = refl
append_assoc (x ∷ xs) ys zs = ap (λ l. x ∷ l) (append_assoc xs ys zs)

pub has-put : (a b : ℕ) (us vs : List ℕ) → has a (us ++ b ∷ vs) ≡ (a == b || has a (us ++ vs))
has-put a b us vs = ground (arith, has-append a us (b ∷ vs), has-append a us vs)

pub length-put : (b : ℕ) (us vs : List ℕ) → length (us ++ b ∷ vs) ≡ suc (length (us ++ vs))
length-put b us vs = omega (arith, length-append us (b ∷ vs), length-append us vs)

pub Distinct-put :
    (b : ℕ) (us vs : List ℕ)
    → Distinct (us ++ vs)
    → has b (us ++ vs) ≡ false
    → Distinct (us ++ b ∷ vs)
Distinct-put b [] vs d out = (out, d)
Distinct-put b (u ∷ us) vs d out =
    (ground (arith, has-put u b us vs, d.0), Distinct-put b us vs d.1 (ground arith))

pub has-length : (a : ℕ) (xs : List ℕ) → has a xs ≡ true → length xs ≢ 0
has-length a [] h = absurd (ground arith)
has-length a (x ∷ xs) h = omega arith
