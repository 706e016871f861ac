-- ===== src/Syscall.antt =====
-- syscall.c: what its functions share: the codes that they return, the types of files, and what
-- they are told by the system.
pub mod Lookup
pub mod Entries
pub mod Create
pub mod Remove
pub mod Io
pub mod Attributes
pub mod Links
pub mod Modes
pub mod Stored
pub mod Served
pub mod Tests
use pcd_file_system.Prelude.{
  ℕ, ◌+◌, ◌-◌, ◌*◌, ◌/◌, ◌%◌, ◌^◌, Option, none, some, Bool, if◌then◌else◌, ◌==◌,
}
use pcd_file_system.Prelude.Run.{Cmd, pure, failure, attempt, ◌>>=◌}
use pcd_file_system.Db.{uint_max}
use pcd_file_system.Inode.Life.{User}

-- An int is given by its bits: -1, -ENOENT, -EIO and -ENOTEMPTY.
abbrev pub minus_one : ℕ
minus_one = 2 ^ 32 - 1

abbrev pub minus_enoent : ℕ
minus_enoent = 2 ^ 32 - 2

abbrev pub minus_eio : ℕ
minus_eio = 2 ^ 32 - 5

abbrev pub minus_enotempty : ℕ
minus_enotempty = 2 ^ 32 - 39

-- What one system call is told: what inode_allocate finds out about the user, the ids of
-- fuse_get_context (in pcd_mkroot of getuid and getgid), and what its calls of time(NULL) give.
pub record Context : Type 0 where
  pub user : User
  pub uid : ℕ
  pub gid : ℕ
  pub time : ℕ → ℕ

module _ {S : Type 0} where
  -- after a call whose -1 makes the caller return `code`
  pub on_result : {A : Type 0} → Option A → ℕ → (A → Cmd S ℕ) → Cmd S ℕ
  on_result none code k = pure code
  on_result (some a) code k = k a

  abbrev pub try_or : {A : Type 0} → Cmd S A → ℕ → (A → Cmd S ℕ) → Cmd S ℕ
  try_or m code k = attempt m >>= λ r. on_result r code k

  -- an int of which the callers test for -1
  unfoldable pub unless_minus_one : ℕ → Cmd S ℕ
  unless_minus_one n = if n == uint_max then failure else pure n

-- The types of files, by their four bits in the mode, and by the characters 's', 'l', '-', 'b',
-- 'd', 'c', 'p' and '?'.
unfoldable pub file_type : ℕ → ℕ
file_type m =
    let bits = m / 4096 % 16 in
    if bits == 12
    then 115
    else if bits == 10
    then 108
    else if bits == 8
    then 45
    else if bits == 6
    then 98
    else if bits == 4
    then 100
    else if bits == 2
    then 99
    else if bits == 1
    then 112
    else 63

unfoldable pub file_type_to_mode_t : ℕ → ℕ
file_type_to_mode_t c =
    if c == 115
    then 12 * 4096
    else if c == 108
    then 10 * 4096
    else if c == 45
    then 8 * 4096
    else if c == 98
    then 6 * 4096
    else if c == 100
    then 4 * 4096
    else if c == 99
    then 2 * 4096
    else if c == 112
    then 4096
    else 0

-- mode & S_IFDIR, as a test
unfoldable pub has_dir_bit : ℕ → Bool
has_dir_bit mode = mode / 2 ^ 14 % 2 == 1

-- S_IFDIR | mode
unfoldable pub or_dir_bit : ℕ → ℕ
or_dir_bit mode = if mode / 2 ^ 14 % 2 == 1 then mode else mode + 2 ^ 14
