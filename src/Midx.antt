-- ===== src/Midx.antt =====
-- lib/bup/midx.py: `PackMidx`, one index over several packs, with its lookup by interpolation, and
-- `open_midx`. `firstword` and `extract_bits` are those of lib/bup/_helpers.c.
pub mod Words
pub mod Search
mod Tests
use bup.Base.{
  ℕ, zero, suc, ◌+◌, ◌-◌, ◌*◌, ◌/◌, ◌^◌, bit_and, Bool, true, false, ◌||◌, not, Option, none, some,
  List, [], ◌∷◌, ◌++◌, ltb, leb, ◌==◌, if◌then◌else◌, length, take, drop, get_elem?, bytes_eq,
}
use bup.Base.Bytes.{ascii, ends_with, slice, unpack_from}
use bup.Base.Lex.{bytes_lt}
use bup.Base.Error.{
  Result, ok, err, undefined, assertion_error, index_error, system_error, zero_division, ◌>>=◌,
  ◌>>◌,
}
use bup.Git.PackIdx.{ObjectLocation, object_exists}

-- `ntohl` of four bytes. The C function returns no value and raises nothing if there are fewer.
pub firstword : List ℕ → Result ℕ
firstword (a ∷ b ∷ c ∷ d ∷ buf) = ok (((a * 256 + b) * 256 + c) * 256 + d)
firstword _ = err system_error

-- C leaves a shift of a `uint32_t` by 32 open, and one of an `int` past its sign bit.
pub extract_bits : List ℕ → ℕ → Result ℕ
extract_bits buf nbits = do
  v ← firstword buf
  if nbits == 0 || ltb 30 nbits
      then undefined
      else ok (bit_and (v / 2 ^ (32 - nbits)) (2 ^ nbits - 1))

pub record PackMidx : Type 0 where
  pub name : List ℕ
  pub map : List ℕ
  pub bits : ℕ
  pub nsha : ℕ
  pub idxnames : List (List ℕ)

-- The places of the tables, which the constructor computes from `bits` and `nsha`.
abbrev pub entries : PackMidx → ℕ
entries m = 2 ^ m.bits

abbrev pub fanout_ofs : ℕ
fanout_ofs = 12

abbrev pub sha_ofs : PackMidx → ℕ
sha_ofs m = fanout_ofs + entries m * 4

abbrev pub which_ofs : PackMidx → ℕ
which_ofs m = sha_ofs m + 20 * m.nsha

pub fanget : PackMidx → ℕ → Result ℕ
fanget m i =
    if leb (entries m * 4) i
    then err index_error
    else firstword (slice m.map (fanout_ofs + i * 4) 4)

pub get : PackMidx → ℕ → Result (List ℕ)
get m i = if leb m.nsha i then err index_error else ok (slice m.map (sha_ofs m + i * 20) 20)

pub get_idx_i : PackMidx → ℕ → Result ℕ
get_idx_i m i = if leb m.nsha i then err index_error else unpack_from 4 m.map (which_ofs m + i * 4)

or_index_error : Option (List ℕ) → Result (List ℕ)
or_index_error none = err index_error
or_index_error (some name) = ok name

pub get_idxname : PackMidx → ℕ → Result (List ℕ)
get_idxname m i = do which ← get_idx_i m i; or_index_error (get_elem? m.idxnames which)

-- The `while start < end` of `exists`. Each round takes one from `end - start` at least. Here
-- `startv` is at most `hashv` and `hashv` at most `endv`, so the subtractions do not stop at 0.
pub exists_loop : (ℕ → Result (List ℕ)) → List ℕ → ℕ → ℕ → ℕ → ℕ → ℕ → ℕ → Result (Option ℕ)
exists_loop get want hashv zero start startv end endv = ok none
exists_loop get want hashv (suc fuel) start startv end endv =
    let mid = start + (hashv - startv) * (end - start - 1) / (endv - startv) in
    let above = λ (word : ℕ). exists_loop get want hashv fuel (mid + 1) word end endv in
    let below = λ (word : ℕ). exists_loop get want hashv fuel start startv mid word in
    if ltb start end
    then if endv - startv == 0 then err zero_division else (do
      v ← get mid
      if bytes_lt v want
          then (do word ← firstword v; above word)
          else if bytes_lt want v
          then (do word ← firstword v; below word)
          else ok (some mid))
    else ok none

pub fanget_before : PackMidx → ℕ → Result ℕ
fanget_before m zero = ok 0
fanget_before m (suc el) = fanget m el

-- The place of `want` in the table of oids. With `el` 0 the source sets `start` and `startv` to 0.
pub find : PackMidx → List ℕ → Result (Option ℕ)
find m want = do
  el ← extract_bits want m.bits
  start ← fanget_before m el
  end ← fanget m el
  hashv ← firstword want
  exists_loop (get m) want hashv (end - start) start (el * 2 ^ (32 - m.bits)) end
      ((el + 1) * 2 ^ (32 - m.bits))

pub location_of : PackMidx → Bool → Option ℕ → Result (Option ObjectLocation)
location_of m want_source none = ok none
location_of m true (some mid) = do
  idxname ← get_idxname m mid
  ok (some (record { pack = some idxname; offset = none }))
location_of m false (some mid) = ok (some object_exists)

pub exists : PackMidx → List ℕ → Bool → Bool → Result (Option ObjectLocation)
exists m want want_source want_offset =
    if want_offset
    then err assertion_error
    else (do found ← find m want; location_of m want_source found)

-- map.split(b'\0')
split_nul : List ℕ → List ℕ → List (List ℕ)
split_nul part [] = part ∷ []
split_nul part (c ∷ map) =
    let more = split_nul [] map in
    let on = split_nul (part ++ c ∷ []) map in if c == 0 then part ∷ more else on

-- `PackMidx` or MissingIdxs with the paths that are missing.
pub data Opened : Type 0 where
  opened : PackMidx → Opened
  missing_idxs : List (List ℕ) → Opened

missing : (List ℕ → Bool) → List (List ℕ) → List (List ℕ)
missing path_exists [] = []
missing path_exists (name ∷ names) =
    let rest = missing path_exists names in if path_exists name then rest else name ∷ rest

or_missing : PackMidx → List (List ℕ) → Opened
or_missing m [] = opened m
or_missing m (name ∷ names) = missing_idxs (name ∷ names)

-- The object while the constructor fills it.
unnamed : List ℕ → List ℕ → ℕ → ℕ → List (List ℕ) → PackMidx
unnamed filename map bits nsha idxnames = record {
  name = filename;
  map = map;
  bits = bits;
  nsha = nsha;
  idxnames = idxnames;
}

midx_version : List ℕ → Result ℕ
midx_version map = unpack_from 4 map 4

-- `path_exists name` says whether the directory of the file has an index of that name.
pub pack_midx : (List ℕ → Bool) → List ℕ → List ℕ → Result Opened
pack_midx path_exists filename map =
    if not (bytes_eq (slice map 0 4) (ascii "MIDX")) then err assertion_error else do
      version ← midx_version map
      if not (version == 4) then err assertion_error else do
        bits ← firstword (slice map 8 4)
        let shell = unnamed filename map bits
        nsha ← fanget (shell 0 []) (2 ^ bits - 1)
        let names = split_nul [] (drop (which_ofs (shell nsha []) + 4 * nsha) map)
        ok (or_missing (shell nsha names) (missing path_exists names))

unless_missing : Opened → Option Opened
unless_missing (opened m) = some (opened m)
unless_missing (missing_idxs paths) = none

-- None stands for a file that is skipped with a warning.
pub open_midx : (List ℕ → Bool) → List ℕ → List ℕ → Bool → Result (Option Opened)
open_midx path_exists path map ignore_missing =
    if not (ends_with path (ascii ".midx"))
    then err assertion_error
    else if not (bytes_eq (slice map 0 4) (ascii "MIDX"))
    then ok none
    else do
      ver ← midx_version map
      if not (ver == 4) then ok none else do
        midx ← pack_midx path_exists path map
        ok (if ignore_missing then unless_missing midx else some midx)
