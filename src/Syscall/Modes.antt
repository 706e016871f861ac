-- ===== src/Syscall/Modes.antt =====
-- FileType and FileTypeToModeT of syscall.c, and the test of is_dir.
use pcd_file_system.Prelude.{ℕ, ◌*◌, ◌/◌, ◌%◌, ◌≡◌, ◌≢◌, ◌||◌, arith, ◌==◌}
use pcd_file_system.Syscall.{file_type, file_type_to_mode_t, has_dir_bit}

-- FileType and FileTypeToModeT undo each other, where the type is known.
file_type-file_type_to_mode_t :
    (c m : ℕ)
    → file_type_to_mode_t c ≢ 0
    → file_type m ≢ 63
    → (file_type (file_type_to_mode_t c) ≡ c)
      × (file_type_to_mode_t (file_type m) ≡ m / 4096 % 16 * 4096)
unfolding file_type file_type_to_mode_t
file_type-file_type_to_mode_t c m known known' = (ground arith, ground arith)

-- For a mode of a known type, the test of is_dir is true exactly for directories, block devices
-- and sockets.
pub has_dir_bit-file_type :
    (m : ℕ)
    → file_type m ≢ 63
    → has_dir_bit m ≡ (file_type m == 100 || file_type m == 98 || file_type m == 115)
unfolding file_type has_dir_bit
has_dir_bit-file_type m known = ground arith
