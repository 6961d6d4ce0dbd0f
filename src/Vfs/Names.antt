-- ===== src/Vfs/Names.antt =====
-- Names and inodes of `simple_vfs.c`: lookup, create and unlink, and the root.
use kernel_programming.Base.{
  ℕ, ◌+◌, ◌≡◌, ◌⊎◌, ◌↔◌, inl, inr, refl, true, false, none, some, List, [], ◌∷◌, arith, ok, err,
  enomem, Bool-cases, ==_self, replicate,
}
use kernel_programming.Vfs.{
  ExampleInode, no_ops, file_ops, dir_ops, Answers, Dentry, same_name, testfile, example_lookup,
  example_create, example_unlink, example_fill_super, file_type, with_ifreg, s_ifreg, s_ifdir,
}

same_name-eq : (a b : List ℕ) → same_name a b ≡ true → a ≡ b
unfolding same_name
same_name-eq [] [] h = refl
same_name-eq [] (b ∷ bs) h = cc
same_name-eq (a ∷ as') [] h = cc
same_name-eq (a ∷ as') (b ∷ bs) h = ground (arith, same_name-eq as' bs)

same_name_self : (a : List ℕ) → same_name a a ≡ true
unfolding same_name
same_name_self [] = refl
same_name_self (a ∷ as') = rw (==_self a, same_name_self as')

-- The inode of `example_get_inode` before its operations are set.
abbrev regular : Answers → ℕ → ExampleInode
regular k mode = record {
  ino = k.get_next_ino;
  mode = with_ifreg mode;
  uid = k.current_fsuid;
  gid = k.current_fsgid;
  mtime = k.current_time;
  ctime = k.current_time;
  nlink = 1;
  i_size = 0;
  ops = no_ops;
  bytes = replicate 64 0;
}

regular_type :
    (mode : ℕ)
    → (file_type mode ≡ 0) ⊎ (file_type mode ≡ s_ifreg)
    → file_type (with_ifreg mode) ≡ s_ifreg
regular_type mode h = ground arith

-- The lookup of a name attaches an inode exactly where the name is "testfile" and an inode can be
-- allocated.
pub lookup-positive_iff :
    (k : Answers) (d : Dentry)
    → ((inode : ExampleInode) × ((example_lookup k d).inode ≡ some inode))
      ↔ ((d.name ≡ testfile) × (k.kmalloc ≡ true))
unfolding example_lookup
lookup-positive_iff k d = (
  λ p. let (inode, e) = p in ground (arith, same_name-eq d.name testfile),
  λ p.
      let (n, got) = p in
      (
        record (regular k (s_ifreg + 0o644)) { ops = file_ops },
        ground (arith, same_name_self testfile),
      ),
)

-- What a lookup attaches is a regular file with the file operations and one link, of size 0.
pub lookup-file :
    (k : Answers) (d : Dentry) {inode : ExampleInode}
    → (example_lookup k d).inode ≡ some inode
    → (file_type inode.mode ≡ s_ifreg)
      × (inode.ops ≡ file_ops)
      × (inode.nlink ≡ 1)
      × (inode.i_size ≡ 0)
unfolding example_lookup
lookup-file k d h = ground arith

-- A file that is created, for any mode with no type bits but S_IFREG, and then unlinked: both
-- succeed, unlink follows no NULL pointer, the entry's reference count is what it was, and the
-- entry's inode, a regular file with the file operations, has no links left.
pub create-unlink :
    (k k' : Answers) (dir : ExampleInode) (d : Dentry) (mode : ℕ)
    → k.kmalloc ≡ true
    → (file_type mode ≡ 0) ⊎ (file_type mode ≡ s_ifreg)
    → (dir' dir'' : ExampleInode) × (d' d'' : Dentry) × (inode : ExampleInode) × (example_create k
          dir d mode
        ≡ (dir', d', ok 0))
      × (example_unlink k' dir' d' ≡ some (dir'', d'', ok 0))
      × (d''.inode ≡ some inode)
      × (d''.count ≡ d.count)
      × (inode.ops ≡ file_ops)
      × (file_type inode.mode ≡ s_ifreg)
      × (inode.nlink ≡ 0)
unfolding example_create example_unlink
create-unlink k k' dir d mode got h =
    let made : ExampleInode = record (regular k mode) { ops = file_ops } in
    let dir' : ExampleInode = record dir { mtime = k.current_time; ctime = k.current_time } in
    let d' : Dentry = record d { inode = some made; count = d.count + 1 } in
    let gone : ExampleInode = record made { ctime = k'.current_time; nlink = 0 } in
    (
      dir',
      record dir' { mtime = k'.current_time; ctime = k'.current_time },
      d',
      record d' { inode = some gone; count = d.count },
      gone,
      ground (arith, regular_type mode h),
      ground arith,
      refl,
      refl,
      refl,
      regular_type mode h,
      refl,
    )

-- Mounting succeeds exactly where the root inode and its entry can be allocated, and then the root
-- is a directory with the directory operations and two links; otherwise the result is -ENOMEM and
-- there is no root.
pub fill_super_lem :
    (k : Answers)
    → (((example_fill_super k).1 ≡ ok 0)
        × ((root : ExampleInode) × ((example_fill_super k).0.root ≡ some root)
            × (file_type root.mode ≡ s_ifdir)
            × (root.ops ≡ dir_ops)
            × (root.nlink ≡ 2)))
      ⊎ (((example_fill_super k).1 ≡ err enomem)
          × ((example_fill_super k).0.root ≡ none)
          × ((k.kmalloc ≡ false) ⊎ (k.d_make_root ≡ false)))
unfolding example_fill_super
fill_super_lem k = elim (Bool-cases k.kmalloc) [
  | inr no_memory ↦ inr (ground arith)
  | inl got ↦ elim (Bool-cases k.d_make_root) [
    | inr no_entry ↦ inr (ground arith)
    | inl made ↦ inl (
      ground arith,
      (
        record (regular k 0) { mode = s_ifdir + 0o755; ops = dir_ops; nlink = 2 },
        ground arith,
        refl,
        refl,
        refl,
      ),
    )
  ]
]
