-- ===== src/Path/Parents.antt =====
-- get_parent of syscall.c on the path of a file below the root.
use mathlib.Core.Path.{subst}
use pcd_file_system.Prelude.{ℕ, ◌<◌, ◌≡◌, refl, sym, ap, ◌∙◌, List, [], ◌∷◌, ◌++◌, arith}
use pcd_file_system.Prelude.Run.{ok}
use pcd_file_system.Prelude.Lists.{length, append_assoc}
use pcd_file_system.Path.{slash, max_file_name, Parent, get_parent}
use pcd_file_system.Path.Names.{IsName, AreNames, join, path_of, no_slash, get_parent-slash}

-- the name is at the end
unfoldable pub snoc : List (List ℕ) → List ℕ → List (List ℕ)
snoc [] name = name ∷ []
snoc (x ∷ xs) name = x ∷ snoc xs name

-- The names fit the arrays of get_parent.
abbrev pub AreShort : List (List ℕ) → Type 0
AreShort [] = Unit
AreShort (name ∷ names) = (length name < max_file_name) × AreShort names

append_nil : (n : List ℕ) → n ++ [] ≡ n
append_nil [] = refl
append_nil (x ∷ xs) = ap (λ l. x ∷ l) (append_nil xs)

join-snoc : (names : List (List ℕ)) (n : List ℕ) → join (snoc names n) ≡ join names ++ slash ∷ n
unfolding join snoc
join-snoc [] n = ap (λ l. slash ∷ l) (append_nil n)
join-snoc (m ∷ ms) n =
    ap (λ l. slash ∷ m ++ l) (join-snoc ms n)
    ∙ ap (λ l. slash ∷ l) (sym (append_assoc m (join ms) (slash ∷ n)))

path_of-snoc :
    (names : List (List ℕ)) (n : List ℕ) → path_of (snoc names n) ≡ join names ++ slash ∷ n
unfolding path_of snoc
path_of-snoc [] n = join-snoc [] n
path_of-snoc (m ∷ ms) n = join-snoc (m ∷ ms) n

path_of-top : (n : List ℕ) → path_of (snoc [] n) ≡ slash ∷ n
unfolding join path_of snoc
path_of-top n = ap (λ l. slash ∷ l) (append_nil n)

-- the last of the names
snoc-cases :
    (m : List ℕ) (ms : List (List ℕ))
    → (init : List (List ℕ)) × (l : List ℕ) × (m ∷ ms ≡ snoc init l)
unfolding snoc
snoc-cases m [] = ([], m, refl)
snoc-cases m (n ∷ ns) = let (init, l, e) = snoc-cases n ns in (m ∷ init, l, ap (λ x. m ∷ x) e)

AreNames-last : (init : List (List ℕ)) (l : List ℕ) → AreNames (snoc init l) → IsName l
unfolding snoc
AreNames-last [] l are = are.0
AreNames-last (x ∷ xs) l are = AreNames-last xs l are.1

AreShort-last :
    (init : List (List ℕ)) (l : List ℕ) → AreShort (snoc init l) → length l < max_file_name
unfolding snoc
AreShort-last [] l are = are.0
AreShort-last (x ∷ xs) l are = AreShort-last xs l are.1

pub AreNames-snoc :
    (names : List (List ℕ)) (n : List ℕ) → AreNames names → IsName n → AreNames (snoc names n)
unfolding snoc
AreNames-snoc [] n are is = (is, tt)
AreNames-snoc (x ∷ xs) n are is = (are.0, AreNames-snoc xs n are.1 is)

-- The parent of the file is at the path of the names before.
pub get_parent-path_of :
    {S : Type 0} (names : List (List ℕ)) (n : List ℕ) (s : S)
    → AreNames names
    → AreShort names
    → IsName n
    → length n < max_file_name
    → (p : Parent) × (get_parent (path_of (snoc names n)) s ≡ ok p s)
      × (p.parent_path ≡ path_of names)
      × (p.file_name ≡ n)
unfolding path_of
get_parent-path_of [] n s are short is lt = (
  record { parent_path = slash ∷ []; parent = slash ∷ []; file_name = n },
  rw (path_of-top n) (get_parent-slash [] [] n s is refl lt (omega arith)).0,
  refl,
  refl,
)
get_parent-path_of (m ∷ ms) n s are short is lt =
    let (init, l, e) = snoc-cases m ms in
    let path : path_of (m ∷ ms) ≡ join init ++ slash ∷ l = ap path_of e ∙ path_of-snoc init l in
    let last : IsName l = AreNames-last init l (subst AreNames e are) in
    let fits = AreShort-last init l (subst AreShort e short) in
    (
      record { parent_path = join init ++ slash ∷ l; parent = l; file_name = n },
      rw (path_of-snoc (m ∷ ms) n, path)
          (get_parent-slash (join init) l n s is (no_slash l last) lt fits).1,
      sym path,
      refl,
    )
