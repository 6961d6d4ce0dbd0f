-- ===== src/Tests/Block.antt =====
-- The block device at a device of four sectors.
use kernel_programming.Base.{
  ℕ, ◌+◌, ◌*◌, ◌/◌, ◌^◌, ◌≤◌, ◌<◌, ◌≡◌, refl, true, false, none, some, [], ◌∷◌, inr, replicate,
  length-replicate, arith, ok, err, slice, enomem,
}
use kernel_programming.Kernel.Resources.{Balanced}
use kernel_programming.Block.{
  SimpleBlockDev, Segment, Bio, sts_ok, simple_queue_rq, simple_handle_bio, Calls,
  simple_block_init, simple_block_exit, fresh_device, kernel_sector_size,
}
use kernel_programming.Block.Loading.{
  IsValid, simple_block_init-Balanced, simple_block_init-IsValid,
}
use kernel_programming.Block.Segments.{IsSectors, payload, total}
use kernel_programming.Block.Requests.{Fits, queue_rq-roundtrip, queue_rq-apart, handle_bio-beyond}

abbrev four_sectors : SimpleBlockDev
four_sectors = record {
  size = 2048;
  bytes = replicate 2048 0xaa;
  queue_depth = 128;
  major = 8;
  minors = 16;
  block_size = 512;
  capacity = 4;
}

four_sectors-IsValid : IsValid four_sectors
four_sectors-IsValid = record { sized = length-replicate 2048 0xaa; small = omega arith }

abbrev page : ℕ → ℕ → Segment
page n b = record { memory = replicate n b; len = n }

-- A kilobyte in one segment, and room for a kilobyte in two.
abbrev one_write : Bio
one_write = record { sector = 1; write = true; segments = page 1024 7 ∷ [] }

abbrev two_reads : Bio
two_reads = record { sector = 1; write = false; segments = page 512 0 ∷ page 512 0 ∷ [] }

abbrev last_read : Bio
last_read = record { sector = 3; write = false; segments = page 512 0 ∷ [] }

page-IsSectors : (n b : ℕ) → n / 512 * 512 ≡ n → IsSectors (page n b)
page-IsSectors n b h = record { sectors = h; inside = omega (arith, length-replicate {A = ℕ} n b) }

one_write-Fits : Fits four_sectors one_write
unfolding total
one_write-Fits = record { whole = (page-IsSectors 1024 7 refl, tt); ends = omega arith }

two_reads-Fits : Fits four_sectors two_reads
unfolding total
two_reads-Fits = record {
  whole = (page-IsSectors 512 0 refl, (page-IsSectors 512 0 refl, tt));
  ends = omega arith;
}

last_read-Fits : Fits four_sectors last_read
unfolding total
last_read-Fits = record { whole = (page-IsSectors 512 0 refl, tt); ends = omega arith }

same_total : total two_reads.segments ≡ total one_write.segments
unfolding total
same_total = refl

apart : one_write.sector * 512 + total one_write.segments ≤ last_read.sector * 512
unfolding total
apart = omega arith

queue_rq-roundtrip_example :
    (d : SimpleBlockDev) × (read : Bio) × (simple_queue_rq four_sectors (one_write ∷ two_reads ∷ [])
      ≡ some (d, one_write ∷ read ∷ [], sts_ok))
    × (payload read.segments ≡ payload one_write.segments)
queue_rq-roundtrip_example =
    queue_rq-roundtrip four_sectors four_sectors-IsValid one_write two_reads one_write-Fits
      two_reads-Fits refl refl refl same_total

queue_rq-apart_example :
    (d : SimpleBlockDev) × (read : Bio) × (simple_queue_rq four_sectors (one_write ∷ last_read ∷ [])
      ≡ some (d, one_write ∷ read ∷ [], sts_ok))
    × (payload read.segments
        ≡ slice (last_read.sector * 512) (total last_read.segments) four_sectors.bytes)
queue_rq-apart_example =
    queue_rq-apart four_sectors four_sectors-IsValid one_write last_read one_write-Fits
      last_read-Fits refl refl (inr apart)

abbrev beyond : Bio
beyond = record { sector = 4; write = true; segments = page 512 1 ∷ page 1024 2 ∷ [] }

beyond_small : beyond.sector * 512 + total beyond.segments < 2 ^ 64
unfolding total
beyond_small = omega arith

handle_bio-beyond_example :
    simple_handle_bio four_sectors beyond ≡ some (four_sectors, beyond, sts_ok)
handle_bio-beyond_example =
    handle_bio-beyond four_sectors beyond (omega arith) (omega arith) beyond_small

abbrev all_succeed : Calls
all_succeed = record {
  kzalloc = true;
  vmalloc = true;
  register_blkdev = ok 250;
  alloc_tag_set = none;
  alloc_disk = none;
  add_disk = none;
}

abbrev no_disk : Calls
no_disk = record all_succeed { alloc_disk = some enomem }

no_disk_result : (simple_block_init no_disk).result ≡ err enomem
unfolding simple_block_init
no_disk_result = refl

simple_block_init-Balanced_example : Balanced (simple_block_init no_disk) simple_block_exit
simple_block_init-Balanced_example = simple_block_init-Balanced no_disk

simple_block_init-IsValid_example :
    IsValid (fresh_device 250)
    × ((fresh_device 250).capacity * kernel_sector_size ≡ (fresh_device 250).size)
unfolding simple_block_init
simple_block_init-IsValid_example =
    simple_block_init-IsValid all_succeed {dev = fresh_device 250} refl
