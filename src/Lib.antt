-- ===== src/Lib.antt =====
-- PCD File System, a file system in a device file, in C: a write-back block cache, a super block,
-- a list of free blocks, inodes with three levels of indirect blocks, and system calls for FUSE.
--
-- The parts, from the bottom, and the modules that model them:
--   disk.c, disk.h    Disk. Disk.Lru is the list of the buffers in the order of their last use
--                     (list_init, list_prioritize, the pointer work of list_add) on nodes at
--                     addresses; Disk.Hash is the table from block ids to nodes (hash_find,
--                     hash_insert, hash_delete); Disk.Cache has disk_read, disk_write, list_add,
--                     sync and cache_to_disk on the whole state, and initialize of fs.c.
--   sb.c, sb.h        Sb: the struct sb, its words in block 0, sb_init, sb_read, sb_write.
--   db.c, db.h        Db: db_allocate, db_free, db_read, db_write, db_init. Db.FreeList says which
--                     list of ids the blocks of the free list stand for.
--   inode.c, inode.h  Inode: the struct inode, find_inode_by_inum, write_inode_to_disk; Inode.Init
--                     has inode_bitmap_init and inode_list_init, Inode.Bitmap has find_free_inode;
--                     Inode.Fields has the functions for single fields, Inode.Life has
--                     inode_allocate, inode_free and the link count, Inode.Blocks has
--                     find_block_by_num, write_block_by_num and free_block_by_num, Inode.Grow has
--                     add_block, Inode.Files has read_file, Inode.Writes has write_file and
--                     truncate_file. Inode.Files.Read says what a read gives of the bytes of a
--                     file, Inode.Writes.Written what a write leaves.
--   dir.h             Dir: struct dirent, an entry of a directory, as bytes.
--   syscall.c, .h     Path: get_parent and get_dir. Syscall: the codes and the types of files;
--                     Syscall.Lookup has find_inode_index and find_inode, Syscall.Entries
--                     delete_dirent, is_dir and is_empty_dir, Syscall.Create pcd_mkroot, pcd_mkdir
--                     and pcd_mknod, Syscall.Remove pcd_unlink and pcd_rmdir, Syscall.Io the calls
--                     on open files, pcd_readdir and the symbolic links, Syscall.Attributes
--                     pcd_chmod, pcd_chown and pcd_utimens, Syscall.Links pcd_rename and pcd_link.
--                     Syscall.Lookup.Resolve says how names lead through directories.
--   fs.c              Mkfs: mkfs. (initialize is in Disk.Cache.)
--   pcd_fuse.c        Getattr: pcd_getattr.
-- The names are those of the source in lower case: inode_read_UID is inode_read_uid, struct
-- List_Node is ListNode. Block has the blocks of bytes and the unsigned ints in them. Prelude.Run is
-- the result of a C function: it returns, returns -1, or has undefined behaviour.
--
-- How they interact: the layers above disk.c are given disk_read and disk_write as a record of
-- operations (Disk.Contract.DiskOps), and their theorems ask for the contract IsDisk on a set of ids:
-- a read returns the block and changes none, and a write sets one. disk.c meets it for the blocks that
-- are in its cache, in every state of its list in which they are (Disk.Cache.Hits.cached-IsDisk), and
-- the theorems' hypotheses say which blocks of the disk have to be in the set. The ids of the set are
-- below UINT_MAX and not bounded by 2^20: a block that is in the cache is not looked for in the file,
-- where the offset wraps. The tests and the witnesses run on disk.c with a cache of BUFFER_NUM buffers,
-- each with a block in it (Disk.Cache.Full). Outside the set a request can miss, and reads the file and
-- takes a buffer from another block; Disk.Cache.Requests and Disk.Cache.Writes say what it does there,
-- under the condition IsUntied on the pointers of the list, without which the list can be broken.
--
-- Parameters: the device file (Disk.Device.FileApi: lseek and read, lseek and write) with its
-- documented behaviour as IsReliable, what malloc and uninitialised variables hold (`junk`), the
-- time, and what getenv and getpwnam say (Inode.Life.User), what fuse_get_context, getuid and getgid
-- say (Syscall.Context), and the filler function that FUSE gives pcd_readdir.
--
-- Numbers are natural numbers. Where an unsigned int can wrap the definitions say `% 2 ^ 32`, and an
-- int is given by its bits. A block is a function from offsets to bytes; only the offsets below 4096
-- count. A buffer that a failed read was to fill is as it was before, also where read_file
-- had copied blocks into it before its -1. A path is the list of the codes
-- of its characters. The system calls return the bits of their code, so -ENOENT is 2^32 - 2.
--
-- Rounds: sync_loop counts the nodes that it visits; a round for each buffer is enough on a list
-- that is in order. The other loops have the number of rounds that their bounds give. read_blocks
-- and write_blocks have end_num + 1 - start_num rounds, which is how often their bodies run.
-- write_file and truncate_file have a bound on how deep they call each other, past which the result
-- is undefined; a write within the file needs one call, and no theorem is about the others. The loop
-- of find_inode has as many rounds as the path has characters, and each takes one or more off it;
-- the loops over the entries of a directory have a round for each entry that begins before the end.
--
-- Not modelled: main of pcd_fuse.c and its table of operations, freefs of fs.c, messages on the
-- terminal, and freeing of memory. The headers declare what the .c files define.
pub mod Prelude
pub mod Block
pub mod Disk
pub mod Sb
pub mod Db
pub mod Inode
pub mod Dir
pub mod Getattr
pub mod Mkfs
pub mod Path
pub mod Syscall
