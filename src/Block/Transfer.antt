-- ===== src/Block/Transfer.antt =====
-- What one transfer does: `simple_transfer` against plain reads and writes of byte ranges.
use kernel_programming.Base.{
  ℕ, ◌+◌, ◌*◌, ◌%◌, ◌^◌, ◌≤◌, ◌≡◌, true, false, some, List, length, arith, ltb, le→ltb, slice,
  splice, read_at-within, write_at-within, length-slice,
}
use kernel_programming.Block.{SimpleBlockDev, simple_transfer, kernel_sector_size}
use kernel_programming.Block.Loading.{IsValid}

-- A range of sectors that ends within the device.
abbrev pub Within : SimpleBlockDev → (sector nsect : ℕ) → Type 0
Within dev sector nsect = (sector + nsect) * kernel_sector_size ≤ dev.size

-- No product or sum of a transfer within the device wraps.
fits :
    (dev : SimpleBlockDev)
    → IsValid dev
    → (sector nsect : ℕ) → Within dev sector nsect
    → (sector * 512 % 2 ^ 64 ≡ sector * 512)
      × (nsect * 512 % 2 ^ 64 ≡ nsect * 512)
      × ((sector * 512 + nsect * 512) % 2 ^ 64 ≡ sector * 512 + nsect * 512)
      × (ltb dev.size (sector * 512 + nsect * 512) ≡ false)
      × (sector * 512 + nsect * 512 ≤ length dev.bytes)
fits dev v sector nsect h =
    (omega arith, omega arith, omega arith, le→ltb _ _ (omega arith), omega arith)

module _ (dev : SimpleBlockDev) (v : IsValid dev) (sector nsect : ℕ) (buf : List ℕ) where
  pub transfer-write :
      Within dev sector nsect
      → nsect * 512 ≤ length buf
      → simple_transfer dev sector nsect buf true
        ≡ some (
          record dev { bytes = splice (sector * 512) (slice 0 (nsect * 512) buf) dev.bytes },
          buf,
        )
  unfolding simple_transfer
  transfer-write h room =
      let (o, n, sum, test, inside) = fits dev v sector nsect h in
      let size : length (slice 0 (nsect * 512) buf) ≡ nsect * 512 =
        length-slice 0 _ buf (omega arith) in
      rw (
        o,
        n,
        sum,
        test,
        read_at-within buf 0 (nsect * 512) (omega arith),
        write_at-within dev.bytes (sector * 512) (slice 0 (nsect * 512) buf) (omega arith),
      )

  pub transfer-read :
      Within dev sector nsect
      → nsect * 512 ≤ length buf
      → simple_transfer dev sector nsect buf false
        ≡ some (dev, splice 0 (slice (sector * 512) (nsect * 512) dev.bytes) buf)
  unfolding simple_transfer
  transfer-read h room =
      let (o, n, sum, test, inside) = fits dev v sector nsect h in
      let size : length (slice (sector * 512) (nsect * 512) dev.bytes) ≡ nsect * 512 =
        length-slice (sector * 512) _ dev.bytes inside in
      rw (
        o,
        n,
        sum,
        test,
        read_at-within dev.bytes (sector * 512) (nsect * 512) inside,
        write_at-within buf 0 (slice (sector * 512) (nsect * 512) dev.bytes) (omega arith),
      )
