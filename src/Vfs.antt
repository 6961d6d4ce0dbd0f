-- ===== src/Vfs.antt =====
-- examples/class_7/00_vfs_obj_imp/simple_vfs.c: a file system whose inodes hold 64 bytes. Inodes
-- and their allocation, lookup, create and unlink, reading and writing a file, listing the
-- directory, and filling the superblock. `loff_t` and `size_t` have 64 bits; a negative offset is
-- the unsigned number that the code compares it as.
use kernel_programming.Base.{
  ℕ, zero, suc, ◌+◌, ◌-◌, ◌*◌, ◌/◌, ◌%◌, ◌^◌, ◌≤◌, ◌<◌, ◌≡◌, Bool, true, false, Option, none, some,
  List, [], ◌∷◌, ◌++◌, ltb, leb, ◌==◌, if◌then◌else◌, length, replicate, Errno, enomem, enospc,
  efault, Result, ok, err, Access, ◌>>=◌, read_at, write_at, strlen,
}
use kernel_programming.Kernel.User.{UserMemory}
use kernel_programming.Kernel.Reading.{Reading}
pub mod Files
pub mod Listing
pub mod Names

abbrev pub simple_magic : ℕ
simple_magic = 0x1998_0122

abbrev pub page_size : ℕ
page_size = 4096

abbrev pub data_size : ℕ
data_size = 64

-- The operation tables that an inode can point to.
pub data Ops : Type 0 where
  no_ops file_ops dir_ops : Ops

-- `struct example_inode_info`: the VFS inode's fields that the code sets, and `bytes` for `data`.
pub record ExampleInode : Type 0 where
  pub ino : ℕ
  pub mode : ℕ
  pub uid : ℕ
  pub gid : ℕ
  pub mtime : ℕ
  pub ctime : ℕ
  pub nlink : ℕ
  pub i_size : ℕ
  pub ops : Ops
  pub bytes : List ℕ

-- What the kernel answers while a call runs.
pub record Answers : Type 0 where
  pub kmalloc : Bool
  pub get_next_ino : ℕ
  pub current_fsuid : ℕ
  pub current_fsgid : ℕ
  pub current_time : ℕ
  pub d_make_root : Bool

-- A new inode has one link and size 0 (`inode_init_always`).
unfoldable pub example_alloc_inode : Answers → Option ExampleInode
example_alloc_inode k =
    if k.kmalloc
    then some (record {
      ino = 0;
      mode = 0;
      uid = 0;
      gid = 0;
      mtime = 0;
      ctime = 0;
      nlink = 1;
      i_size = 0;
      ops = no_ops;
      bytes = replicate data_size 0;
    })
    else none

-- `S_IFREG`, `S_IFDIR` and `mode & S_IFMT`.
abbrev pub s_ifreg : ℕ
s_ifreg = 0o100000

abbrev pub s_ifdir : ℕ
s_ifdir = 0o040000

abbrev pub file_type : ℕ → ℕ
file_type mode = mode / 0o10000 % 16 * 0o10000

-- mode | S_IFREG
abbrev pub with_ifreg : ℕ → ℕ
with_ifreg mode = if mode / s_ifreg % 2 == 1 then mode else mode + s_ifreg

-- The `switch` of `example_get_inode`.
pub set_ops : ExampleInode → ExampleInode
set_ops inode =
    if file_type inode.mode == s_ifreg
    then record inode { ops = file_ops }
    else if file_type inode.mode == s_ifdir
    then record inode { ops = dir_ops; nlink = inode.nlink + 1 }
    else inode

pub example_get_inode : Answers → (mode : ℕ) → Option ExampleInode
unfolding set_ops example_alloc_inode
example_get_inode k mode = elim (example_alloc_inode k) [
  | none ↦ none
  | some inode ↦ some (
      set_ops (record inode {
        ino = k.get_next_ino;
        mode = mode;
        uid = k.current_fsuid;
        gid = k.current_fsgid;
        mtime = k.current_time;
        ctime = k.current_time;
      }))
]

-- strcmp(a, b) == 0, for strings without their NUL
pub same_name : List ℕ → List ℕ → Bool
same_name [] [] = true
same_name [] (_ ∷ _) = false
same_name (_ ∷ _) [] = false
same_name (a ∷ as') (b ∷ bs) = let rest = same_name as' bs in if a == b then rest else false

-- "testfile"
abbrev pub testfile : List ℕ
testfile = b't' ∷ b'e' ∷ b's' ∷ b't' ∷ b'f' ∷ b'i' ∷ b'l' ∷ b'e' ∷ []

-- A dentry: its name, the inode that `d_add` or `d_instantiate` attaches, and its reference count.
pub record Dentry : Type 0 where
  pub name : List ℕ
  pub inode : Option ExampleInode
  pub count : ℕ

-- The directory entry after the lookup; the function itself returns NULL on every path.
unfoldable pub example_lookup : Answers → Dentry → Dentry
unfolding same_name example_get_inode
example_lookup k dentry =
    if same_name dentry.name testfile
    then elim (example_get_inode k (s_ifreg + 0o644)) [
      | some inode ↦ record dentry { inode = some inode }
      | none ↦ record dentry { inode = none }
    ]
    else record dentry { inode = none }

pub example_create :
    Answers → (dir : ExampleInode) → Dentry → (mode : ℕ) → ExampleInode × Dentry × Result ℕ
unfolding example_get_inode
example_create k dir dentry mode = elim (example_get_inode k (with_ifreg mode)) [
  | none ↦ (dir, dentry, err enospc)
  | some inode ↦ (
    record dir { mtime = k.current_time; ctime = k.current_time },
    record dentry { inode = some inode; count = dentry.count + 1 },
    ok 0,
  )
]

-- The inode of the entry is read with no check: `none` is a NULL pointer that is followed.
pub example_unlink :
    Answers → (dir : ExampleInode) → Dentry → Access (ExampleInode × Dentry × Result ℕ)
example_unlink k dir dentry = do
  inode ← dentry.inode
  some (
    record dir { mtime = k.current_time; ctime = k.current_time },
    record dentry {
      inode = some (record inode { ctime = k.current_time; nlink = inode.nlink - 1 });
      count = dentry.count - 1;
    },
    ok 0,
  )

pub example_read : UserMemory → ExampleInode → (count pos : ℕ) → Access Reading
example_read u inode count pos = do
  len ← strlen inode.bytes
  if leb len pos then some (record { result = ok 0; pos = pos; delivered = [] }) else (do
    let count = if ltb len ((pos + count) % 2 ^ 64) then len - pos else count
    chunk ← read_at inode.bytes pos count
    some (
        if u.to_left chunk == 0
        then record { result = ok count; pos = (pos + count) % 2 ^ 64; delivered = chunk }
        else record { result = err efault; pos = pos; delivered = [] }))

pub example_write : UserMemory → ExampleInode → (count pos : ℕ) → Access (ExampleInode × Result ℕ)
example_write u inode count pos = do
  let count = if ltb (data_size - 1) count then data_size - 1 else count
  bytes ← write_at inode.bytes 0 (u.from_user count)
  if u.from_left count == 0
      then (do
        bytes ← write_at bytes count (0 ∷ [])
        some (record inode { bytes = bytes; i_size = count }, ok count))
      else some (record inode { bytes = bytes }, err efault)

-- The entries of the directory. `emit e` is the answer of `dir_emit` for entry `e`: false where
-- the user's buffer is full.
pub data Entry : Type 0 where
  dot dotdot file : Entry

-- One `if` of `example_readdir`: at `pos ≡ at`, emit the entry and advance, or return.
abbrev emit_at : (at' : ℕ) → Entry → (Entry → Bool) → ℕ → (ℕ → List Entry × ℕ) → List Entry × ℕ
emit_at at' e emit pos rest =
    if pos == at'
    then if emit e then (let (es, pos') = rest (at' + 1) in (e ∷ es, pos')) else ([], pos)
    else rest pos

-- The entries that were emitted and the position after the call; it returns 0 on every path.
unfoldable pub example_readdir : (Entry → Bool) → (pos : ℕ) → List Entry × ℕ
example_readdir emit pos =
    emit_at 0 dot emit pos
      λ pos. emit_at 1 dotdot emit pos λ pos. emit_at 2 file emit pos λ pos. ([], pos)

pub record Superblock : Type 0 where
  pub blocksize : ℕ
  pub magic : ℕ
  pub time_gran : ℕ
  pub root : Option ExampleInode

abbrev with_root : Option ExampleInode → Superblock
with_root root = record { blocksize = page_size; magic = simple_magic; time_gran = 1; root = root }

-- `d_make_root` drops the inode where it fails.
pub example_fill_super : Answers → Superblock × Result ℕ
unfolding example_get_inode
example_fill_super k = elim (example_get_inode k (s_ifdir + 0o755)) [
  | none ↦ (with_root none, err enomem)
  | some inode ↦
      if k.d_make_root then (with_root (some inode), ok 0) else (with_root none, err enomem)
]

pub record Statfs : Type 0 where
  pub fs_type : ℕ
  pub bsize : ℕ
  pub blocks : ℕ
  pub bfree : ℕ
  pub files : ℕ
  pub namelen : ℕ

pub example_statfs : Statfs
example_statfs = record {
  fs_type = simple_magic;
  bsize = page_size;
  blocks = 0;
  bfree = 0;
  files = 0;
  namelen = 255;
}
