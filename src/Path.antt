-- ===== src/Path.antt =====
-- syscall.c: get_parent and get_dir, on paths as lists of the codes of their bytes, without the NUL
-- at the end.
pub mod Names
pub mod Parents
use pcd_file_system.Prelude.{ℕ, List, [], ◌∷◌, Option, none, some, leb, if◌then◌else◌, ◌==◌}
use pcd_file_system.Prelude.Run.{Cmd, pure, failure, undefined, ◌>>=◌}
use pcd_file_system.Prelude.Lists.{length}

-- '/'
abbrev pub slash : ℕ
slash = 47

-- MAX_FILE_NAME
abbrev pub max_file_name : ℕ
max_file_name = 256

-- what get_parent writes to its three output parameters
pub record Parent : Type 0 where
  pub parent_path : List ℕ
  pub parent : List ℕ
  pub file_name : List ℕ

after_rest : ℕ → List ℕ → Option (List ℕ × List ℕ) → Option (List ℕ × List ℕ)
after_rest c cs (some (before, after)) = some (c ∷ before, after)
after_rest c cs none = if c == slash then some ([], cs) else none

-- strrchr(path, '/'): what stands before the last slash, and after it; none is NULL
unfoldable pub strrchr : List ℕ → Option (List ℕ × List ℕ)
unfolding after_rest
strrchr [] = none
strrchr (c ∷ cs) = after_rest c cs (strrchr cs)

module _ {S : Type 0} where
  -- strcpy into an array of MAX_FILE_NAME characters
  unfoldable pub copy_name : List ℕ → Cmd S (List ℕ)
  copy_name name = if leb max_file_name (length name) then undefined else pure name

  -- the name of the parent, by the last slash of its path; without one, a copy from (char *)1
  unfoldable pub name_of_parent : Option (List ℕ × List ℕ) → Cmd S (List ℕ)
  name_of_parent none = undefined
  name_of_parent (some (before, after)) = copy_name after

  -- `val` is what stands from the last slash on
  unfoldable pub split_path : Option (List ℕ × List ℕ) → Cmd S Parent
  split_path none = failure
  split_path (some (before, [])) = failure
  split_path (some ([], c ∷ cs)) = do
    name ← copy_name (c ∷ cs)
    pure (record { parent_path = slash ∷ []; parent = slash ∷ []; file_name = name })
  split_path (some (b ∷ bs, c ∷ cs)) = do
    name ← copy_name (c ∷ cs)
    parent ← name_of_parent (strrchr (b ∷ bs))
    pure (record { parent_path = b ∷ bs; parent = parent; file_name = name })

  unfoldable pub get_parent : List ℕ → Cmd S Parent
  get_parent path = split_path (strrchr path)

-- strtok(path, "/"): the slashes in front are left out, and the name ends before the next
unfoldable pub skip_slashes : List ℕ → List ℕ
skip_slashes [] = []
skip_slashes (c ∷ cs) = if c == slash then skip_slashes cs else c ∷ cs

unfoldable pub first_name : List ℕ → List ℕ
first_name [] = []
first_name (c ∷ cs) = if c == slash then [] else c ∷ first_name cs

-- `none` where strtok returns NULL, which get_dir passes to strdup
dir_of : List ℕ → Option (List ℕ)
dir_of [] = none
dir_of (c ∷ cs) = some (first_name (c ∷ cs))

unfoldable pub get_dir : List ℕ → Option (List ℕ)
unfolding dir_of
get_dir path = dir_of (skip_slashes path)
