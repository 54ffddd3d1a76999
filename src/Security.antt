-- ===== src/Security.antt =====
-- services/build-worker/zipbomb.go and services/submission-api/security/zip_bomb.go: the two tests
-- of an archive before it is extracted. A name is its bytes. The int64 sums wrap around: a word is
-- kept below 2 ^ 64 and is negative from 2 ^ 63 on.
pub mod Bombs
use alpha_exchange.Base.{
  ℕ, ◌+◌, ◌/◌, ◌%◌, ◌==◌, ltb, leb, if◌then◌else◌, Bool, true, false, ◌&&◌, ◌||◌, List, [], ◌∷◌,
  length, Option, none, some,
}

abbrev pub max_uncompressed : ℕ
max_uncompressed = 524_288_000

abbrev pub max_ratio : ℕ
max_ratio = 100

abbrev pub max_entries : ℕ
max_entries = 10_000

abbrev pub two_63 : ℕ
two_63 = 9_223_372_036_854_775_808

abbrev pub two_64 : ℕ
two_64 = 18_446_744_073_709_551_616

-- What the tests read of an entry; the sizes are uint64.
pub record File : Type 0 where
  pub name : List ℕ
  pub uncompressed_size64 : ℕ
  pub compressed_size64 : ℕ

-- `strings.Contains(name, "..")`.
unfoldable pub contains_dots : List ℕ → Bool
contains_dots [] = false
contains_dots (a ∷ []) = false
contains_dots (a ∷ b ∷ rest) = if a == 46 && b == 46 then true else contains_dots (b ∷ rest)

-- `strings.HasPrefix(name, "/")`.
unfoldable pub has_slash : List ℕ → Bool
has_slash [] = false
has_slash (a ∷ rest) = a == 47

unfoldable pub is_unsafe : List ℕ → Bool
unfolding contains_dots has_slash
is_unsafe name = contains_dots name || has_slash name

-- The int64 sum of a sum and `int64(size)`.
unfoldable pub add_int64 : ℕ → ℕ → ℕ
add_int64 sum size = (sum + size) % two_64

-- `x > limit` for an int64.
unfoldable pub exceeds : ℕ → ℕ → Bool
exceeds x limit = ltb x two_63 && ltb limit x

-- `comp > 0 && unc/comp > maxRatio`; the quotient of a negative sum is at most 0. Where `comp` is
-- 0 or negative, the first test has failed.
unfoldable pub ratio_exceeds : ℕ → ℕ → Bool
unfolding exceeds
ratio_exceeds unc comp = exceeds comp 0 && ltb unc two_63 && ltb max_ratio (unc / comp)

-- The errors of the build worker.
pub data BuildError : Type 0 where
  too_many_entries traversal_in_zip size_exceeds_limit ratio_too_high : BuildError

-- The loop of `checkZipBomb` and what follows it.
unfoldable pub check_sizes : List File → ℕ → ℕ → Option BuildError
unfolding is_unsafe add_int64 exceeds ratio_exceeds
check_sizes [] unc comp = if ratio_exceeds unc comp then some ratio_too_high else none
check_sizes (f ∷ fs) unc comp =
    let unc1 = add_int64 unc f.uncompressed_size64 in
    let rest = check_sizes fs unc1 (add_int64 comp f.compressed_size64) in
    if is_unsafe f.name
    then some traversal_in_zip
    else if exceeds unc1 max_uncompressed
    then some size_exceeds_limit
    else rest

unfoldable pub check_zip_bomb : List File → Option BuildError
unfolding check_sizes
check_zip_bomb files =
    if ltb max_entries (length files) then some too_many_entries else check_sizes files 0 0

-- The errors of the submission api.
pub data UploadError : Type 0 where
  zip_bomb path_traversal : UploadError

-- The loop of `CheckZipReader` and what follows it.
unfoldable pub inspect : List File → ℕ → ℕ → Option UploadError
unfolding is_unsafe add_int64 exceeds ratio_exceeds
inspect [] unc comp = if ratio_exceeds unc comp then some zip_bomb else none
inspect (f ∷ fs) unc comp =
    let unc1 = add_int64 unc f.uncompressed_size64 in
    let rest = inspect fs unc1 (add_int64 comp f.compressed_size64) in
    if is_unsafe f.name
    then some path_traversal
    else if exceeds unc1 max_uncompressed
    then some zip_bomb
    else rest

unfoldable pub check_zip_reader : List File → Option UploadError
unfolding inspect
check_zip_reader files = if ltb max_entries (length files) then some zip_bomb else inspect files 0 0
