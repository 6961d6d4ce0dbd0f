-- ===== src/Tests/Vfs.antt =====
-- The file system at a fresh inode, a mapped and an unmapped user buffer.
use kernel_programming.Base.{
  ◌≤◌, ◌≡◌, refl, Bool, true, false, none, some, [], ◌∷◌, length, take, drop, replicate, arith, ok,
  until_nul,
}
use kernel_programming.Kernel.User.{mapped}
use kernel_programming.Kernel.Reading.{read_spec}
use kernel_programming.Kernel.Cat.{cat}
use kernel_programming.Vfs.{
  ExampleInode, no_ops, file_ops, dir_ops, Answers, Dentry, Entry, dot, example_read, example_write,
  example_alloc_inode, example_lookup, example_readdir, testfile, file_type, s_ifreg,
}
use kernel_programming.Vfs.Files.{
  IsValid, content, kept, example_read-write, alloc_inode-IsValid, cat-example_read,
}
use kernel_programming.Vfs.Listing.{listing, entries, listing_lem}
use kernel_programming.Vfs.Names.{lookup-file}

abbrev answers : Answers
answers = record {
  kmalloc = true;
  get_next_ino = 7;
  current_fsuid = 0;
  current_fsgid = 0;
  current_time = 99;
  d_make_root = true;
}

abbrev fresh : ExampleInode
fresh = record {
  ino = 0;
  mode = 0;
  uid = 0;
  gid = 0;
  mtime = 0;
  ctime = 0;
  nlink = 1;
  i_size = 0;
  ops = no_ops;
  bytes = replicate 64 0;
}

alloc_inode-IsValid_example : IsValid fresh × (content fresh ≡ [])
unfolding example_alloc_inode
alloc_inode-IsValid_example = alloc_inode-IsValid answers {inode = fresh} refl

fresh-IsValid : IsValid fresh
fresh-IsValid = alloc_inode-IsValid_example.0

example_read-write_example :
    (inode' : ExampleInode) × (example_write (mapped 65) fresh 100 5 ≡ some (inode', ok (kept 100)))
    × (example_read (mapped 0) inode' 10 2
        ≡ some (read_spec (mapped 0) (until_nul (replicate 63 65)) 10 2))
example_read-write_example =
    example_read-write (mapped 65) (mapped 0) fresh 100 5 10 2 fresh-IsValid refl (omega arith)

fresh_empty : length (content fresh) ≡ 0
fresh_empty = rw alloc_inode-IsValid_example.1

cat-example_read_example : cat 2 (example_read (mapped 0) fresh) 8 0 ≡ some (drop 0 (content fresh))
cat-example_read_example =
    cat-example_read (mapped 0) fresh 8 2 0 fresh-IsValid (omega arith) (omega arith) (λ _. refl)
      (omega arith) (omega (arith, fresh_empty))

abbrev full_buffer : Entry → Bool
full_buffer dot = true
full_buffer _ = false

abbrev all_fit : Entry → Bool
all_fit _ = true

listing_run : listing (full_buffer ∷ full_buffer ∷ all_fit ∷ all_fit ∷ []) 0 ≡ (entries, 3)
unfolding listing example_readdir
listing_run = refl

listing_lem_example :
    ((listing (full_buffer ∷ all_fit ∷ []) 0).0
      ≡ take (listing (full_buffer ∷ all_fit ∷ []) 0).1 entries)
    × ((listing (full_buffer ∷ all_fit ∷ []) 0).1 ≤ 3)
listing_lem_example = listing_lem (full_buffer ∷ all_fit ∷ [])

abbrev entry : Dentry
entry = record { name = testfile; inode = none; count = 1 }

abbrev found : ExampleInode
found = record fresh { ino = 7; mode = 0o100644; mtime = 99; ctime = 99; ops = file_ops }

lookup-file_example :
    (file_type found.mode ≡ s_ifreg)
    × (found.ops ≡ file_ops)
    × (found.nlink ≡ 1)
    × (found.i_size ≡ 0)
unfolding example_lookup
lookup-file_example = lookup-file answers entry {inode = found} refl

abbrev directory : ExampleInode
directory = record fresh { mode = 0o040755; nlink = 2; ops = dir_ops }
