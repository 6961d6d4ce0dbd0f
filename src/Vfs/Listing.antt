-- ===== src/Vfs/Listing.antt =====
-- Listing the directory of `simple_vfs.c` over any number of calls.
use kernel_programming.Base.{
  ℕ, zero, suc, ◌≤◌, ◌≡◌, refl, Bool, true, List, [], ◌∷◌, ◌++◌, arith, take, sym, ap, ◌∙◌,
  append-nil, append_assoc,
}
use kernel_programming.Vfs.{Entry, dot, dotdot, file, example_readdir}

-- The calls of one listing, each with the answers of `dir_emit` while it runs; the position is
-- carried from call to call.
unfoldable pub listing : List (Entry → Bool) → ℕ → List Entry × ℕ
listing [] pos = ([], pos)
listing (emit ∷ calls) pos =
    let (es, pos) = example_readdir emit pos in
    let (more, pos) = listing calls pos in (es ++ more, pos)

abbrev pub entries : List Entry
entries = dot ∷ dotdot ∷ file ∷ []

readdir_step :
    (emit : Entry → Bool) (pos : ℕ)
    → pos ≤ 3
    → (take pos entries ++ (example_readdir emit pos).0 ≡ take (example_readdir emit pos).1 entries)
      × ((example_readdir emit pos).1 ≤ 3)
      × (pos ≤ (example_readdir emit pos).1)
unfolding example_readdir
readdir_step emit zero h = ground arith
readdir_step emit (suc zero) h = ground arith
readdir_step emit (suc (suc zero)) h = ground arith
readdir_step emit (suc (suc (suc zero))) h = ground arith
readdir_step emit (suc (suc (suc (suc n)))) h = absurd (omega arith)

listing_from :
    (calls : List (Entry → Bool)) (pos : ℕ)
    → pos ≤ 3
    → (take pos entries ++ (listing calls pos).0 ≡ take (listing calls pos).1 entries)
      × ((listing calls pos).1 ≤ 3)
unfolding listing
listing_from [] pos h = (append-nil _, h)
listing_from (emit ∷ calls) pos h =
    let (here, fits, _) = readdir_step emit pos h in
    let (later, fits') = listing_from calls (example_readdir emit pos).1 fits in
    (
      sym (append_assoc (take pos entries) (example_readdir emit pos).0 _)
          ∙ ap (λ es. es ++ (listing calls (example_readdir emit pos).1).0) here
          ∙ later,
      fits',
    )

-- Over any calls, with the user's buffer filling up at any entry of any of them: the entries that
-- were emitted since the start are exactly the first `pos` of ".", ".." and "testfile", in this
-- order, for the position `pos` that is reached. No entry is skipped, and none comes twice.
pub listing_lem :
    (calls : List (Entry → Bool))
    → ((listing calls 0).0 ≡ take (listing calls 0).1 entries) × ((listing calls 0).1 ≤ 3)
listing_lem calls = listing_from calls 0 (omega arith)

-- A call whose entries all fit ends the listing, from wherever it stood.
pub readdir_complete :
    (emit : Entry → Bool) (pos : ℕ)
    → pos ≤ 3
    → ((e : Entry) → emit e ≡ true)
    → (example_readdir emit pos).1 ≡ 3
unfolding example_readdir
readdir_complete emit zero h all = ground (arith, all dot, all dotdot, all file)
readdir_complete emit (suc zero) h all = ground (arith, all dotdot, all file)
readdir_complete emit (suc (suc zero)) h all = ground (arith, all file)
readdir_complete emit (suc (suc (suc zero))) h all = refl
readdir_complete emit (suc (suc (suc (suc n)))) h all = absurd (omega arith)
