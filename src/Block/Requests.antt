-- ===== src/Block/Requests.antt =====
-- The request handler at the level of bios: what is written, what is read, what is refused.
use kernel_programming.Base.{
  ℕ, ◌+◌, ◌*◌, ◌/◌, ◌%◌, ◌^◌, ◌≤◌, ◌<◌, ◌≡◌, ◌⊎◌, inl, inr, refl, ◌∙◌, Bool, true, false, some,
  List, [], ◌∷◌, All, arith, slice, slice-splice_self, slice-splice_above, slice-splice_below, ltb,
  lt→ltb,
}
use kernel_programming.Block.{
  SimpleBlockDev, Segment, Bio, sts_ok, simple_transfer, each_segment, simple_handle_bio, each_bio,
  simple_queue_rq,
}
use kernel_programming.Block.Loading.{IsValid}
use kernel_programming.Block.Segments.{
  IsSectors, payload, total, length-payload, written, written-IsValid, each_segment-write, filled,
  each_segment-read, payload-filled,
}

-- A bio of whole sectors that ends within the device.
pub record Fits (dev : SimpleBlockDev) (bio : Bio) : Type 0 where
  pub whole : All IsSectors bio.segments
  pub ends : bio.sector * 512 + total bio.segments ≤ dev.size

module _ (dev : SimpleBlockDev) (v : IsValid dev) (bio : Bio) (f : Fits dev bio) where
  pub handle_bio-write :
      bio.write ≡ true
      → simple_handle_bio dev bio
        ≡ some (written dev bio.sector (payload bio.segments), bio, sts_ok)
  unfolding simple_handle_bio
  handle_bio-write w = rw (w, each_segment-write dev v bio.segments f.whole bio.sector f.ends)

  pub handle_bio-read :
      bio.write ≡ false
      → simple_handle_bio dev bio
        ≡ some (dev, record bio { segments = filled dev bio.sector bio.segments }, sts_ok)
  unfolding simple_handle_bio
  handle_bio-read w = rw (w, each_segment-read dev v bio.segments f.whole bio.sector f.ends)

  -- What a read delivers is the range of the device, whatever the segments are.
  read-range :
      payload (filled dev bio.sector bio.segments)
      ≡ slice (bio.sector * 512) (total bio.segments) dev.bytes
  read-range = payload-filled dev v bio.segments f.whole bio.sector f.ends

module _ (dev : SimpleBlockDev) (v : IsValid dev) where
  -- A request of a write and a read bio: the device and the segments that the read fills.
  queue_rq-write_read :
      (w r : Bio)
      → Fits dev w
      → Fits dev r
      → w.write ≡ true
      → r.write ≡ false
      → simple_queue_rq dev (w ∷ r ∷ [])
        ≡ some (
          written dev w.sector (payload w.segments),
          w
              ∷ record r {
                segments = filled (written dev w.sector (payload w.segments)) r.sector r.segments;
              }
              ∷ [],
          sts_ok,
        )
  unfolding simple_queue_rq each_bio
  queue_rq-write_read w r fw fr tw tr =
      let d : SimpleBlockDev = written dev w.sector (payload w.segments) in
      let vd : IsValid d = written-IsValid dev w.sector (payload w.segments) v in
      let fd : Fits d r = record { whole = fr.whole; ends = fr.ends } in
      rw (handle_bio-write dev v w fw tw, handle_bio-read d vd r fd tr)

  -- On a valid device, in one request a bio that writes whole sectors within the device and then a
  -- bio that reads as many bytes at the same sector: no access faults, the status is OK, the bio
  -- that was written is unchanged, and the segments of the read hold, in order, what was written,
  -- however the two bios divide it into segments.
  pub queue_rq-roundtrip :
      (w r : Bio)
      → Fits dev w
      → Fits dev r
      → w.write ≡ true
      → r.write ≡ false
      → r.sector ≡ w.sector
      → total r.segments ≡ total w.segments
      → (d : SimpleBlockDev) × (read : Bio) × (simple_queue_rq dev (w ∷ r ∷ [])
          ≡ some (d, w ∷ read ∷ [], sts_ok))
        × (payload read.segments ≡ payload w.segments)
  queue_rq-roundtrip w r fw fr tw tr same len =
      let d : SimpleBlockDev = written dev w.sector (payload w.segments) in
      let vd : IsValid d = written-IsValid dev w.sector (payload w.segments) v in
      let size = length-payload w.segments fw.whole in
      let range : payload (filled d r.sector r.segments)
          ≡ slice (r.sector * 512) (total r.segments) d.bytes =
        payload-filled d vd r.segments fr.whole r.sector fr.ends in
      let back =
        slice-splice_self (w.sector * 512) (payload w.segments) dev.bytes
          (omega (arith, size, fw.ends, v.sized)) in
      (
        d,
        record r { segments = filled d r.sector r.segments },
        queue_rq-write_read w r fw fr tw tr,
        range ∙ rw (same, len, ← size) back,
      )

  -- On a valid device, in one request a bio that writes whole sectors within the device and then a
  -- bio that reads from a range with no byte in common: no access faults, the status is OK, and the
  -- read delivers what the device held in its range before the write.
  pub queue_rq-apart :
      (w r : Bio)
      → Fits dev w
      → Fits dev r
      → w.write ≡ true
      → r.write ≡ false
      → (r.sector * 512 + total r.segments ≤ w.sector * 512)
        ⊎ (w.sector * 512 + total w.segments ≤ r.sector * 512)
      → (d : SimpleBlockDev) × (read : Bio) × (simple_queue_rq dev (w ∷ r ∷ [])
          ≡ some (d, w ∷ read ∷ [], sts_ok))
        × (payload read.segments ≡ slice (r.sector * 512) (total r.segments) dev.bytes)
  queue_rq-apart w r fw fr tw tr apart =
      let bs : List ℕ = payload w.segments in
      let d : SimpleBlockDev = written dev w.sector bs in
      let vd : IsValid d = written-IsValid dev w.sector bs v in
      let size = length-payload w.segments fw.whole in
      let range = payload-filled d vd r.segments fr.whole r.sector fr.ends in
      let p : ℕ = r.sector * 512 in
      let n : ℕ = total r.segments in
      let kept : slice p n d.bytes ≡ slice p n dev.bytes = elim apart [
        | inl below ↦ slice-splice_below p n (w.sector * 512) bs dev.bytes below
        | inr above ↦
            slice-splice_above p n (w.sector * 512) bs dev.bytes (omega (arith, size, above))
      ] in
      (
        d,
        record r { segments = filled d r.sector r.segments },
        queue_rq-write_read w r fw fr tw tr,
        range ∙ kept,
      )

-- A segment of at least one sector.
abbrev pub NonEmpty : Segment → Type 0
NonEmpty seg = (seg.len / 512 * 512 ≡ seg.len) × (512 ≤ seg.len)

each_segment-beyond :
    (dev : SimpleBlockDev) (write : Bool) (segs : List Segment)
    → All NonEmpty segs
    → (sector : ℕ) → dev.size ≤ sector * 512
    → sector * 512 + total segs < 2 ^ 64
    → each_segment dev sector write segs ≡ some (dev, segs)
unfolding each_segment simple_transfer total
each_segment-beyond dev write [] h sector out small = refl
each_segment-beyond dev write (seg ∷ segs) h sector out small =
    let n : ℕ = seg.len / 512 in
    let test : ltb dev.size ((sector * 512 % 2 ^ 64 + n * 512 % 2 ^ 64) % 2 ^ 64) ≡ true =
      lt→ltb _ _ (omega (arith, h.0)) in
    let wrap : (sector + n) % 2 ^ 64 ≡ sector + n = omega (arith, h.0) in
    let rest =
      each_segment-beyond dev write segs h.1 (sector + n) (omega (arith, h.0))
        (omega (arith, h.0)) in
    rw (test, wrap, rest)

-- A bio that starts at or behind the end of the device, of non-empty segments of whole sectors and
-- with no address above 2 ^ 64, read or write: nothing is transferred, and the status is OK all
-- the same.
pub handle_bio-beyond :
    (dev : SimpleBlockDev) (bio : Bio)
    → All NonEmpty bio.segments
    → dev.size ≤ bio.sector * 512
    → bio.sector * 512 + total bio.segments < 2 ^ 64
    → simple_handle_bio dev bio ≡ some (dev, bio, sts_ok)
unfolding simple_handle_bio
handle_bio-beyond dev bio h out small =
    rw (each_segment-beyond dev bio.write bio.segments h bio.sector out small)
