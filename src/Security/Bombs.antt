-- ===== src/Security/Bombs.antt =====
-- What an accepted archive keeps to, and where the two tests agree.
use alpha_exchange.Base.{
  ℕ, ◌+◌, ◌%◌, ◌≤◌, ◌<◌, ◌≡◌, refl, ltb, false, List, [], ◌∷◌, length, Option, none, some, arith,
  Bool-cases, inl, inr,
}
use alpha_exchange.Security.{
  File, is_unsafe, add_int64, exceeds, ratio_exceeds, BuildError, too_many_entries,
  traversal_in_zip, size_exceeds_limit, ratio_too_high, check_sizes, check_zip_bomb, UploadError,
  zip_bomb, path_traversal, max_uncompressed, two_63, two_64,
}

-- What the submission api reports for an error of the build worker.
pub as_upload : BuildError → UploadError
as_upload too_many_entries = zip_bomb
as_upload traversal_in_zip = path_traversal
as_upload size_exceeds_limit = zip_bomb
as_upload ratio_too_high = zip_bomb

pub as_upload_result : Option BuildError → Option UploadError
as_upload_result none = none
as_upload_result (some e) = some (as_upload e)

pub uncompressed_sum : List File → ℕ
uncompressed_sum [] = 0
uncompressed_sum (f ∷ fs) = f.uncompressed_size64 + uncompressed_sum fs

-- No entry claims a size near 2 ^ 63.
unfoldable pub IsPlain : List File → Type 0
IsPlain [] = Unit
IsPlain (f ∷ fs) = (f.uncompressed_size64 < 9_000_000_000_000_000_000) × IsPlain fs

pub AllSafe : List File → Type 0
AllSafe [] = Unit
AllSafe (f ∷ fs) = (is_unsafe f.name ≡ false) × AllSafe fs

-- What the limits allow.
pub record IsWithin (fs : List File) : Type 0 where
  pub entries : length fs ≤ 10_000
  pub size : uncompressed_sum fs ≤ max_uncompressed
  pub names : AllSafe fs

check_sizes-next :
    (f : File) (fs : List File) (unc comp : ℕ)
    → check_sizes (f ∷ fs) unc comp ≡ none
    → (is_unsafe f.name ≡ false)
      × (exceeds (add_int64 unc f.uncompressed_size64) max_uncompressed ≡ false)
      × (check_sizes fs (add_int64 unc f.uncompressed_size64) (add_int64 comp f.compressed_size64)
          ≡ none)
unfolding check_sizes
check_sizes-next f fs unc comp e = (ground (arith, e), ground (arith, e), ground (arith, e))

add_int64-small :
    (unc size : ℕ)
    → unc ≤ 524_288_000
    → size < 9_000_000_000_000_000_000
    → exceeds (add_int64 unc size) 524_288_000 ≡ false
    → (add_int64 unc size ≡ unc + size) × (unc + size ≤ 524_288_000)
unfolding add_int64 exceeds
add_int64-small unc size le small e =
    let sum : (unc + size) % 18_446_744_073_709_551_616 ≡ unc + size = omega (arith, le, small) in
    (sum, ground (arith, e, sum, le, small))

check_sizes-IsWithin :
    (fs : List File) (unc comp : ℕ)
    → unc ≤ max_uncompressed
    → IsPlain fs
    → check_sizes fs unc comp ≡ none
    → (unc + uncompressed_sum fs ≤ max_uncompressed) × AllSafe fs
unfolding check_sizes uncompressed_sum IsPlain AllSafe
check_sizes-IsWithin [] unc comp le p e = (omega (arith, le), tt)
check_sizes-IsWithin (f ∷ fs) unc comp le (small, p) e =
    let (safe, fits, rest) = check_sizes-next f fs unc comp e in
    let (sum, under) = add_int64-small unc f.uncompressed_size64 le small fits in
    let (size, names) = check_sizes-IsWithin fs _ _ (omega (arith, sum, under)) p rest in
    (omega (arith, size, sum), (safe, names))

-- Where no entry claims 9 * 10 ^ 18 bytes or more, an archive that passes has at most 10000
-- entries, at most 500 MB uncompressed in all, and no name with ".." or a leading "/".
pub check_zip_bomb-IsWithin : (fs : List File) → IsPlain fs → check_zip_bomb fs ≡ none → IsWithin fs
unfolding check_zip_bomb
check_zip_bomb-IsWithin fs p e = elim (Bool-cases (ltb 10_000 (length fs))) [
  | inl q ↦ absurd (ground (arith, e, q))
  | inr q ↦
      let (size, names) = check_sizes-IsWithin fs 0 0 (omega arith) p (ground (arith, e, q)) in
      record { entries = ground (arith, q); size = omega (arith, size); names = names }
]

add_int64-zero : (size : ℕ) → size < two_64 → add_int64 0 size ≡ size
unfolding add_int64
add_int64-zero size word = omega (arith, word)

exceeds-negative : (x : ℕ) → two_63 ≤ x → exceeds x max_uncompressed ≡ false
unfolding exceeds
exceeds-negative x big = ground (arith, big)

ratio_exceeds-negative : (x comp : ℕ) → two_63 ≤ x → ratio_exceeds x comp ≡ false
unfolding ratio_exceeds
ratio_exceeds-negative x comp big = elim (Bool-cases (exceeds comp 0)) [
  | inl e ↦ rw (e) (ground (arith, big))
  | inr e ↦ rw (e) refl
]

-- An archive of one entry with a safe name passes whenever the entry claims 2 ^ 63 bytes or more:
-- the cast to int64 makes the size negative, which is below each limit.
pub check_zip_bomb-wrapped :
    (f : File)
    → is_unsafe f.name ≡ false
    → two_63 ≤ f.uncompressed_size64
    → f.uncompressed_size64 < two_64
    → check_zip_bomb (f ∷ []) ≡ none
unfolding check_zip_bomb check_sizes
check_zip_bomb-wrapped f safe big word =
    let sum = add_int64-zero f.uncompressed_size64 word in
    rw
      (
        safe,
        sum,
        exceeds-negative f.uncompressed_size64 big,
        ratio_exceeds-negative f.uncompressed_size64 _ big,
      )
      refl
