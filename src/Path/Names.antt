-- ===== src/Path/Names.antt =====
-- get_parent and get_dir of syscall.c on paths that are built from names.
use pcd_file_system.Prelude.{
  ℕ, ◌<◌, ◌≤◌, ◌≡◌, refl, ap, false, List, [], ◌∷◌, ◌++◌, none, some, ◌==◌, arith,
}
use pcd_file_system.Prelude.Run.{ok, crash}
use pcd_file_system.Prelude.Lists.{has, length}
use pcd_file_system.Path.{
  slash, max_file_name, strrchr, copy_name, name_of_parent, split_path, get_parent, skip_slashes,
  first_name, get_dir,
}

-- A name of a file: it is not empty and has no slash.
abbrev pub IsName : List ℕ → Type 0
IsName [] = ⊥
IsName (c ∷ cs) = has slash (c ∷ cs) ≡ false

abbrev pub AreNames : List (List ℕ) → Type 0
AreNames [] = Unit
AreNames (name ∷ names) = IsName name × AreNames names

-- each name with a slash in front
unfoldable pub join : List (List ℕ) → List ℕ
join [] = []
join (name ∷ names) = slash ∷ name ++ join names

pub no_slash : (n : List ℕ) → IsName n → has slash n ≡ false
no_slash [] h = absurd h
no_slash (c ∷ cs) h = h

first_name-end : (n : List ℕ) → has slash n ≡ false → first_name (n ++ []) ≡ n
unfolding first_name
first_name-end [] h = refl
first_name-end (c ∷ cs) h = ground (arith, first_name-end cs)

first_name-slash : (n r : List ℕ) → has slash n ≡ false → first_name (n ++ slash ∷ r) ≡ n
unfolding first_name
first_name-slash [] r h = refl
first_name-slash (c ∷ cs) r h = ground (arith, first_name-slash cs r)

pub first_name-join :
    (n : List ℕ) (ns : List (List ℕ)) → has slash n ≡ false → first_name (n ++ join ns) ≡ n
unfolding join
first_name-join n [] h = first_name-end n h
first_name-join n (m ∷ ns) h = first_name-slash n (m ++ join ns) h

pub get_dir-join : (n : List ℕ) (ns : List (List ℕ)) → IsName n → get_dir (n ++ join ns) ≡ some n
unfolding get_dir skip_slashes
get_dir-join [] ns h = absurd h
get_dir-join (c ∷ cs) ns h =
    let first : (c == slash) ≡ false = ground arith in
    rw (skip_slashes, first) (ap some (first_name-join (c ∷ cs) ns h))

strrchr-none : (n : List ℕ) → has slash n ≡ false → strrchr n ≡ none
unfolding strrchr
strrchr-none [] h = refl
strrchr-none (c ∷ cs) h =
    let rest : has slash cs ≡ false = ground arith in
    let first : (c == slash) ≡ false = ground arith in rw (strrchr-none cs rest, first)

pub strrchr-slash :
    (before n : List ℕ) → has slash n ≡ false → strrchr (before ++ slash ∷ n) ≡ some (before, n)
unfolding strrchr
strrchr-slash [] n h = rw (strrchr-none n h)
strrchr-slash (c ∷ cs) n h = rw (strrchr-slash cs n h)

copy_name_lem :
    {S : Type 0} (n : List ℕ) (s : S) → length n < max_file_name → copy_name n s ≡ ok n s
unfolding copy_name
copy_name_lem n s lt = ground arith

copy_name-long :
    {S : Type 0} (n : List ℕ) (s : S) → max_file_name ≤ length n → copy_name n s ≡ crash
unfolding copy_name
copy_name-long n s le = ground arith

split_path-top :
    {S : Type 0} (n : List ℕ) (s : S)
    → IsName n
    → length n < max_file_name
    → split_path (some ([], n)) s
      ≡ ok (record { parent_path = slash ∷ []; parent = slash ∷ []; file_name = n }) s
unfolding split_path
split_path-top [] s is lt = absurd is
split_path-top (c ∷ cs) s is lt = rw (copy_name_lem (c ∷ cs) s lt)

split_path-below :
    {S : Type 0} (n front m : List ℕ) (s : S)
    → IsName n
    → has slash m ≡ false
    → length n < max_file_name
    → length m < max_file_name
    → split_path (some (front ++ slash ∷ m, n)) s
      ≡ ok (record { parent_path = front ++ slash ∷ m; parent = m; file_name = n }) s
unfolding split_path name_of_parent
split_path-below [] front m s is free lt lt' = absurd is
split_path-below (c ∷ cs) [] m s is free lt lt' =
    rw (copy_name_lem (c ∷ cs) s lt, strrchr-slash [] m free, copy_name_lem m s lt')
split_path-below (c ∷ cs) (b ∷ bs) m s is free lt lt' =
    rw (copy_name_lem (c ∷ cs) s lt, strrchr-slash (b ∷ bs) m free, copy_name_lem m s lt')

split_path-long :
    {S : Type 0} (front n : List ℕ) (s : S)
    → IsName n
    → max_file_name ≤ length n
    → split_path (some (front, n)) s ≡ crash
unfolding split_path
split_path-long front [] s is le = absurd is
split_path-long [] (c ∷ cs) s is le = rw (copy_name-long (c ∷ cs) s le)
split_path-long (b ∷ bs) (c ∷ cs) s is le = rw (copy_name-long (c ∷ cs) s le)

-- For a name that is not empty, has no slash and is shorter than MAX_FILE_NAME, get_parent of a
-- slash and the name gives the root and the name; of any path that ends in a slash, a part without
-- a slash and shorter than MAX_FILE_NAME, a slash and the name, it gives the path before the last
-- slash, that part as the parent, and the name.
pub get_parent-slash :
    {S : Type 0} (front m n : List ℕ) (s : S)
    → IsName n
    → has slash m ≡ false
    → length n < max_file_name
    → length m < max_file_name
    → (get_parent (slash ∷ n) s
        ≡ ok (record { parent_path = slash ∷ []; parent = slash ∷ []; file_name = n }) s)
      × (get_parent (front ++ slash ∷ m ++ slash ∷ n) s
          ≡ ok (record { parent_path = front ++ slash ∷ m; parent = m; file_name = n }) s)
unfolding get_parent
get_parent-slash front m n s is free lt lt' =
    let free_n = no_slash n is in
    (
      rw (strrchr-slash [] n free_n) (split_path-top n s is lt),
      rw (strrchr-slash (front ++ slash ∷ m) n free_n)
          (split_path-below n front m s is free lt lt'),
    )

-- A name that does not fit the array is undefined behaviour.
get_parent-long :
    {S : Type 0} (front n : List ℕ) (s : S)
    → IsName n
    → max_file_name ≤ length n
    → get_parent (front ++ slash ∷ n) s ≡ crash
unfolding get_parent
get_parent-long front n s is le =
    rw (strrchr-slash front n (no_slash n is)) (split_path-long front n s is le)

-- the path of the root, and of a file below it
unfoldable pub path_of : List (List ℕ) → List ℕ
path_of [] = slash ∷ []
path_of (name ∷ names) = join (name ∷ names)
