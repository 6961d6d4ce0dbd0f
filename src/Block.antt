-- ===== src/Block.antt =====
-- examples/class_7/01_block_device/block_demo.c: a RAM disk. The transfer between device and
-- buffer, the loop over the segments of a bio, the request handler, and loading and unloading.
-- Offsets are `unsigned long` and sectors `sector_t`, both of 64 bits.
use kernel_programming.Base.{
  ℕ, zero, suc, ◌+◌, ◌-◌, ◌*◌, ◌/◌, ◌%◌, ◌^◌, ◌≤◌, ◌<◌, ◌≡◌, Bool, true, false, Option, none, some,
  List, [], ◌∷◌, ◌++◌, ltb, ◌==◌, if◌then◌else◌, length, take, replicate, Errno, enomem, enotty,
  Result, ok, err, Access, ◌>>=◌, read_at, write_at,
}
use kernel_programming.Kernel.Resources.{
  Resource, device_struct, buffer, blkdev, tag_set, disk, added_disk, Event, acquire, release, Boot,
  ◌▷◌, stop,
}
pub mod Transfer
pub mod Segments
pub mod Requests
pub mod Loading

abbrev pub kernel_sector_size : ℕ
kernel_sector_size = 512

abbrev pub simple_block_size : ℕ
simple_block_size = 1024 * 1024

abbrev pub simple_block_minors : ℕ
simple_block_minors = 16

-- `struct simple_block_dev` with what its queue and disk are set to; `bytes` is `data`.
pub record SimpleBlockDev : Type 0 where
  pub size : ℕ
  pub bytes : List ℕ
  pub queue_depth : ℕ
  pub major : ℕ
  pub minors : ℕ
  pub block_size : ℕ
  pub capacity : ℕ

-- The device and the buffer after `simple_transfer`.
pub simple_transfer :
    SimpleBlockDev → (sector nsect : ℕ) → List ℕ → (write : Bool) → Access (SimpleBlockDev × List ℕ)
simple_transfer dev sector nsect buf write =
    let offset : ℕ = sector * kernel_sector_size % 2 ^ 64 in
    let nbytes : ℕ = nsect * kernel_sector_size % 2 ^ 64 in
    if ltb dev.size ((offset + nbytes) % 2 ^ 64)
    then some (dev, buf)
    else if write
    then (do
      chunk ← read_at buf 0 nbytes
      bytes ← write_at dev.bytes offset chunk
      some (record dev { bytes = bytes }, buf))
    else do chunk ← read_at dev.bytes offset nbytes; buf ← write_at buf 0 chunk; some (dev, buf)

-- A `bio_vec`: the memory from `page_address(bv_page) + bv_offset` on, and `bv_len`.
pub record Segment : Type 0 where
  pub memory : List ℕ
  pub len : ℕ

pub record Bio : Type 0 where
  pub sector : ℕ
  pub write : Bool
  pub segments : List Segment

pub data BlkStatus : Type 0 where
  sts_ok : BlkStatus
  sts_error : ℕ → BlkStatus

-- The loop of `bio_for_each_segment`.
pub each_segment :
    SimpleBlockDev
    → (sector : ℕ) (write : Bool) → List Segment
    → Access (SimpleBlockDev × List Segment)
each_segment dev sector write [] = some (dev, [])
each_segment dev sector write (seg ∷ segs) = do
  (dev, memory) ← simple_transfer dev sector (seg.len / kernel_sector_size) seg.memory write
  (dev, segs) ← each_segment dev ((sector + seg.len / kernel_sector_size) % 2 ^ 64) write segs
  some (dev, record seg { memory = memory } ∷ segs)

pub simple_handle_bio : SimpleBlockDev → Bio → Access (SimpleBlockDev × Bio × BlkStatus)
simple_handle_bio dev bio = do
  (dev, segs) ← each_segment dev bio.sector bio.write bio.segments
  some (dev, record bio { segments = segs }, sts_ok)

-- The loop of `__rq_for_each_bio`, which stops at the first status that is not OK.
pub each_bio :
    SimpleBlockDev → BlkStatus → List Bio → Access (SimpleBlockDev × List Bio × BlkStatus)
each_bio dev status [] = some (dev, [], status)
each_bio dev status (bio ∷ bios) = do
  (dev, bio, status) ← simple_handle_bio dev bio
  elim status [
    | sts_ok ↦ (do (dev, bios, status) ← each_bio dev sts_ok bios; some (dev, bio ∷ bios, status))
    | sts_error e ↦ some (dev, bio ∷ bios, sts_error e)
  ]

-- The status is both handed to `blk_mq_end_request` and returned.
pub simple_queue_rq : SimpleBlockDev → List Bio → Access (SimpleBlockDev × List Bio × BlkStatus)
unfolding each_bio
simple_queue_rq dev bios = each_bio dev sts_ok bios

pub example_block_ioctl : (cmd arg : ℕ) → Result ℕ
example_block_ioctl cmd arg = err enotty

-- What the kernel answers to the calls of `simple_block_init`.
pub record Calls : Type 0 where
  pub kzalloc : Bool
  pub vmalloc : Bool
  pub register_blkdev : Result ℕ
  pub alloc_tag_set : Option Errno
  pub alloc_disk : Option Errno
  pub add_disk : Option Errno

-- The labels at the end of `simple_block_init`, each falling through to the next.
abbrev out_free_dev : Errno → Boot (Option SimpleBlockDev)
out_free_dev ret = release device_struct ▷ stop none (err ret)

abbrev out_free_data : Errno → Boot (Option SimpleBlockDev)
out_free_data ret = release buffer ▷ out_free_dev ret

abbrev out_unreg_blk : Errno → Boot (Option SimpleBlockDev)
out_unreg_blk ret = release blkdev ▷ out_free_data ret

abbrev out_free_tag_set : Errno → Boot (Option SimpleBlockDev)
out_free_tag_set ret = release tag_set ▷ out_unreg_blk ret

abbrev out_cleanup_disk : Errno → Boot (Option SimpleBlockDev)
out_cleanup_disk ret = release disk ▷ out_free_tag_set ret

abbrev pub fresh_device : ℕ → SimpleBlockDev
fresh_device major_num = record {
  size = simple_block_size;
  bytes = replicate simple_block_size 0xaa;
  queue_depth = 128;
  major = major_num;
  minors = simple_block_minors;
  block_size = kernel_sector_size;
  capacity = simple_block_size / kernel_sector_size;
}

unfoldable pub simple_block_init : Calls → Boot (Option SimpleBlockDev)
simple_block_init k =
    if k.kzalloc
    then acquire device_struct
      ▷ (if k.vmalloc
          then acquire buffer ▷ (elim k.register_blkdev [
            | err e ↦ out_free_data e
            | ok major_num ↦ acquire blkdev ▷ (elim k.alloc_tag_set [
              | some e ↦ out_unreg_blk e
              | none ↦ acquire tag_set ▷ (elim k.alloc_disk [
                | some e ↦ out_free_tag_set e
                | none ↦ acquire disk ▷ (elim k.add_disk [
                  | some e ↦ out_cleanup_disk e
                  | none ↦ acquire added_disk ▷ stop (some (fresh_device major_num)) (ok 0)
                ])
              ])
            ])
          ])
          else out_free_dev enomem)
    else stop none (err enomem)

pub simple_block_exit : Option SimpleBlockDev → List Event
simple_block_exit none = []
simple_block_exit (some dev) =
    release added_disk
    ∷ release disk
    ∷ release tag_set
    ∷ release blkdev
    ∷ release buffer
    ∷ release device_struct
    ∷ []
