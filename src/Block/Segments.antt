-- ===== src/Block/Segments.antt =====
-- What a bio does: the loop over its segments against one access to a contiguous range.
use kernel_programming.Base.{
  ℕ, ◌+◌, ◌*◌, ◌/◌, ◌%◌, ◌^◌, ◌≤◌, ◌≡◌, refl, sym, ap, ◌∙◌, true, false, some, List, [], ◌∷◌, ◌++◌,
  All, length, arith, slice, splice, length-slice, length-splice, length-append, splice-append,
  splice-nil, slice-append, slice-zero, slice-splice_self,
}
use kernel_programming.Block.{SimpleBlockDev, Segment, each_segment}
use kernel_programming.Block.Loading.{IsValid}
use kernel_programming.Block.Transfer.{transfer-write, transfer-read}

-- A segment of whole sectors that lies within its memory.
pub record IsSectors (seg : Segment) : Type 0 where
  pub sectors : seg.len / 512 * 512 ≡ seg.len
  pub inside : seg.len ≤ length seg.memory

-- The bytes that a bio transfers, and how many.
unfoldable pub payload : List Segment → List ℕ
payload [] = []
payload (seg ∷ segs) = slice 0 seg.len seg.memory ++ payload segs

unfoldable pub total : List Segment → ℕ
total [] = 0
total (seg ∷ segs) = seg.len + total segs

pub length-payload : (segs : List Segment) → All IsSectors segs → length (payload segs) ≡ total segs
unfolding payload total
length-payload [] h = refl
length-payload (seg ∷ segs) h = omega (
  arith,
  length-append (slice 0 seg.len seg.memory) (payload segs),
  length-slice 0 seg.len seg.memory (omega (arith, h.0.inside)),
  length-payload segs h.1,
)

-- The device after `bs` was written at sector `sector`.
abbrev pub written : SimpleBlockDev → ℕ → List ℕ → SimpleBlockDev
written dev sector bs = record dev { bytes = splice (sector * 512) bs dev.bytes }

pub written-IsValid :
    (dev : SimpleBlockDev) (sector : ℕ) (bs : List ℕ)
    → IsValid dev
    → IsValid (written dev sector bs)
written-IsValid dev sector bs v = record {
  sized = length-splice (sector * 512) bs dev.bytes ∙ v.sized;
  small = v.small;
}

pub each_segment-write :
    (dev : SimpleBlockDev)
    → IsValid dev
    → (segs : List Segment) → All IsSectors segs
    → (sector : ℕ) → sector * 512 + total segs ≤ dev.size
    → each_segment dev sector true segs ≡ some (written dev sector (payload segs), segs)
unfolding each_segment payload total
each_segment-write dev v [] h sector fits =
    ap (λ bs. some (record dev { bytes = bs }, [])) (sym (splice-nil (sector * 512) dev.bytes))
each_segment-write dev v (seg ∷ segs) h sector fits =
    let n : ℕ = seg.len / 512 in
    let d : SimpleBlockDev = written dev sector (slice 0 (n * 512) seg.memory) in
    let first =
      transfer-write dev v sector n seg.memory (omega (arith, h.0.sectors))
        (omega (arith, h.0.sectors, h.0.inside)) in
    let wrap : (sector + n) % 2 ^ 64 ≡ sector + n = omega (arith, v.small) in
    let rest =
      each_segment-write d (written-IsValid dev sector _ v) segs h.1 (sector + n)
        (omega (arith, h.0.sectors)) in
    let joined =
      splice-append (sector * 512) ((sector + n) * 512) (slice 0 (n * 512) seg.memory)
        (payload segs) dev.bytes
        (omega
          (arith, length-slice 0 (n * 512) seg.memory (omega (arith, h.0.sectors, h.0.inside)))) in
    rw (first, wrap, rest, ← joined, h.0.sectors)

-- Reading leaves the device alone and fills the segments with the range, in order.
abbrev pub filled : SimpleBlockDev → ℕ → List Segment → List Segment
filled dev sector [] = []
filled dev sector (seg ∷ segs) =
    record seg { memory = splice 0 (slice (sector * 512) seg.len dev.bytes) seg.memory }
    ∷ filled dev (sector + seg.len / 512) segs

pub each_segment-read :
    (dev : SimpleBlockDev)
    → IsValid dev
    → (segs : List Segment) → All IsSectors segs
    → (sector : ℕ) → sector * 512 + total segs ≤ dev.size
    → each_segment dev sector false segs ≡ some (dev, filled dev sector segs)
unfolding each_segment total
each_segment-read dev v [] h sector fits = refl
each_segment-read dev v (seg ∷ segs) h sector fits =
    let n : ℕ = seg.len / 512 in
    let first =
      transfer-read dev v sector n seg.memory (omega (arith, h.0.sectors))
        (omega (arith, h.0.sectors, h.0.inside)) in
    let wrap : (sector + n) % 2 ^ 64 ≡ sector + n = omega (arith, v.small) in
    let rest = each_segment-read dev v segs h.1 (sector + n) (omega (arith, h.0.sectors)) in
    rw (first, wrap, rest, h.0.sectors)

pub payload-filled :
    (dev : SimpleBlockDev)
    → IsValid dev
    → (segs : List Segment) → All IsSectors segs
    → (sector : ℕ) → sector * 512 + total segs ≤ dev.size
    → payload (filled dev sector segs) ≡ slice (sector * 512) (total segs) dev.bytes
unfolding payload total
payload-filled dev v [] h sector fits = sym (slice-zero (sector * 512) dev.bytes)
payload-filled dev v (seg ∷ segs) h sector fits =
    let chunk : List ℕ = slice (sector * 512) seg.len dev.bytes in
    let size : length chunk ≡ seg.len =
      length-slice (sector * 512) seg.len dev.bytes (omega (arith, v.sized)) in
    let head : slice 0 (length chunk) (splice 0 chunk seg.memory) ≡ chunk =
      slice-splice_self 0 chunk seg.memory (omega (arith, size, h.0.inside)) in
    let rest =
      payload-filled dev v segs h.1 (sector + seg.len / 512) (omega (arith, h.0.sectors)) in
    rw (
      rw size at head,
      rest,
      slice-append (sector * 512) seg.len ((sector + seg.len / 512) * 512) (total segs)
          (seg.len + total segs) dev.bytes (omega (arith, h.0.sectors)) (omega arith),
    )
