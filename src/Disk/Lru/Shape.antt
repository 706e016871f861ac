-- ===== src/Disk/Lru/Shape.antt =====
-- What it means that the nodes form the doubly linked list of certain addresses, and how writes
-- to single pointers change that.
use pcd_file_system.Prelude.{
  ℕ, ◌≡◌, ◌≢◌, refl, true, Option, none, some, List, [], ◌∷◌, ◌++◌, arith, sym, ◌∙◌,
}
use mathlib.Core.Bool.{false≢true}
use mathlib.Core.Path.{subst}
use pcd_file_system.Prelude.Lists.{Distinct, has, has-last, last}
use pcd_file_system.Disk.Lru.{Lru}

-- From `p` the next pointers lead through `xs` to `stop`.
abbrev pub Nexts : Lru → Option ℕ → List ℕ → Option ℕ → Type 0
Nexts l p [] stop = p ≡ stop
Nexts l p (x ∷ xs) stop = (p ≡ some x) × Nexts l (l.node x).next xs stop

-- Every prev pointer leads to the node before, the first one to `p`.
abbrev pub Prevs : Lru → Option ℕ → List ℕ → Type 0
Prevs l p [] = Unit
Prevs l p (x ∷ xs) = ((l.node x).prev ≡ p) × Prevs l (some x) xs

-- The list is `x ∷ xs`. Nothing is said of the prev pointer of its head.
pub record IsList (l : Lru) (x : ℕ) (xs : List ℕ) : Type 0 where
  pub head : l.head ≡ some x
  pub tail : l.tail ≡ some (last x xs)
  pub nexts : Nexts l (l.node x).next xs none
  pub prevs : Prevs l (some x) xs
  pub distinct : Distinct (x ∷ xs)

-- The two lists of nodes differ in their pointers alone.
abbrev pub SameData : Lru → Lru → Type 0
SameData l l' =
    (a : ℕ)
    → ((l'.node a).buffer_id ≡ (l.node a).buffer_id)
      × ((l'.node a).block_id ≡ (l.node a).block_id)
      × ((l'.node a).dirty ≡ (l.node a).dirty)
      × ((l'.node a).in_hash ≡ (l.node a).in_hash)

pub Nexts-split :
    (l : Lru) (p : Option ℕ) (xs ys : List ℕ) (stop : Option ℕ)
    → Nexts l p (xs ++ ys) stop
    → (m : Option ℕ) × Nexts l p xs m × Nexts l m ys stop
Nexts-split l p [] ys stop h = (p, refl, h)
Nexts-split l p (x ∷ xs) ys stop h =
    let (m, front, back) = Nexts-split l (l.node x).next xs ys stop h.1 in (m, (h.0, front), back)

pub Nexts-join :
    (l : Lru) (p m : Option ℕ) (xs ys : List ℕ) (stop : Option ℕ)
    → Nexts l p xs m
    → Nexts l m ys stop
    → Nexts l p (xs ++ ys) stop
Nexts-join l p m [] ys stop front back = rw front back
Nexts-join l p m (x ∷ xs) ys stop front back =
    (front.0, Nexts-join l (l.node x).next m xs ys stop front.1 back)

-- Nothing changes where the next pointers of the nodes are the same.
pub Nexts-frame :
    (l l' : Lru) (p : Option ℕ) (xs : List ℕ) (stop : Option ℕ)
    → Nexts l p xs stop
    → ((a : ℕ) → has a xs ≡ true → (l'.node a).next ≡ (l.node a).next)
    → Nexts l' p xs stop
Nexts-frame l l' p [] stop h same = h
Nexts-frame l l' p (x ∷ xs) stop h same = (
  h.0,
  rw (same x (ground arith))
      (Nexts-frame l l' (l.node x).next xs stop h.1 λ a i. same a (ground arith)),
)

-- The last node's next pointer may be set anew.
pub Nexts-redirect :
    (l l' : Lru) (x : ℕ) (xs : List ℕ) (m m' : Option ℕ)
    → Nexts l (l.node x).next xs m
    → Distinct (x ∷ xs)
    → ((a : ℕ) → has a (x ∷ xs) ≡ true → a ≢ last x xs → (l'.node a).next ≡ (l.node a).next)
    → (l'.node (last x xs)).next ≡ m'
    → Nexts l' (l'.node x).next xs m'
Nexts-redirect l l' x [] m m' h d same new = new
Nexts-redirect l l' x (y ∷ ys) m m' h d same new =
    let apart : x ≢ last y ys =
      λ e. false≢true (sym d.0 ∙ subst (λ a. has a (y ∷ ys) ≡ true) (sym e) (has-last y ys)) in
    (
      same x (ground arith) apart ∙ h.0,
      Nexts-redirect l l' y ys m m' h.1 d.1 (λ a i. same a (ground arith)) new,
    )

pub Prevs-split :
    (l : Lru) (x : ℕ) (xs ys : List ℕ)
    → Prevs l (some x) (xs ++ ys)
    → Prevs l (some x) xs × Prevs l (some (last x xs)) ys
Prevs-split l x [] ys h = (tt, h)
Prevs-split l x (y ∷ xs) ys h =
    let (front, back) = Prevs-split l y xs ys h.1 in ((h.0, front), back)

pub Prevs-join :
    (l : Lru) (x : ℕ) (xs ys : List ℕ)
    → Prevs l (some x) xs
    → Prevs l (some (last x xs)) ys
    → Prevs l (some x) (xs ++ ys)
Prevs-join l x [] ys front back = back
Prevs-join l x (y ∷ xs) ys front back = (front.0, Prevs-join l y xs ys front.1 back)

pub Prevs-frame :
    (l l' : Lru) (p : Option ℕ) (xs : List ℕ)
    → Prevs l p xs
    → ((a : ℕ) → has a xs ≡ true → (l'.node a).prev ≡ (l.node a).prev)
    → Prevs l' p xs
Prevs-frame l l' p [] h same = tt
Prevs-frame l l' p (x ∷ xs) h same =
    (same x (ground arith) ∙ h.0, Prevs-frame l l' (some x) xs h.1 λ a i. same a (ground arith))

-- A list stays the same list where no pointer changes.
pub IsList-frame :
    (l l' : Lru) (x : ℕ) (xs : List ℕ)
    → IsList l x xs
    → l'.head ≡ l.head
    → l'.tail ≡ l.tail
    → ((a : ℕ) → ((l'.node a).next ≡ (l.node a).next) × ((l'.node a).prev ≡ (l.node a).prev))
    → IsList l' x xs
IsList-frame l l' x xs is hd tl same = record {
  head = hd ∙ is.head;
  tail = tl ∙ is.tail;
  nexts = rw (same x).0 (Nexts-frame l l' (l.node x).next xs none is.nexts λ a i. (same a).0);
  prevs = Prevs-frame l l' (some x) xs is.prevs λ a i. (same a).1;
  distinct = is.distinct;
}
