-- ===== src/Git/PackIdx.antt =====
-- Pack indexes of lib/bup/git.py: `PackIdx` over the two methods that its subclasses define, and
-- `PackIdxV2`, whose methods read the mapped file.
pub mod Search
use bup.Base.{
  ℕ, zero, suc, ◌+◌, ◌-◌, ◌*◌, ◌/◌, ◌%◌, ◌^◌, ◌≤◌, ◌<◌, ◌≡◌, Bool, true, false, ◌||◌, not, Option,
  none, some, List, [], ◌∷◌, ◌++◌, ltb, leb, ◌==◌, if◌then◌else◌, length, take, drop, get_elem?,
  bytes_eq,
}
use bup.Base.Bytes.{ascii, slice, basename, unpack_from}
use bup.Base.Lex.{bytes_lt}
use bup.Base.Error.{Result, ok, err, assertion_error, index_error, ◌>>=◌}

pub record PackIdx : Type 0 where
  pub name : List ℕ
  pub fanout : List ℕ
  pub ofs_from_idx : ℕ → Result ℕ
  pub idx_to_hash : ℕ → Result (List ℕ)

pub record ObjectLocation : Type 0 where
  pub pack : Option (List ℕ)
  pub offset : Option ℕ

abbrev pub object_exists : ObjectLocation
object_exists = record { pack = none; offset = none }

unfoldable pub or_index_error : Option ℕ → Result ℕ
or_index_error none = err index_error
or_index_error (some n) = ok n

-- fanout[b1 - 1], where index -1 is the last entry
unfoldable pub fanout_before : List ℕ → ℕ → Result ℕ
fanout_before fanout zero = or_index_error (get_elem? fanout (length fanout - 1))
fanout_before fanout (suc b) = or_index_error (get_elem? fanout b)

unfoldable pub fanout_at : List ℕ → ℕ → Result ℕ
fanout_at fanout b1 = or_index_error (get_elem? fanout b1)

-- The `while start < end` of `_idx_from_hash`; each round takes one from `end - start` at least.
pub idx_loop : (ℕ → Result (List ℕ)) → List ℕ → ℕ → ℕ → ℕ → Result (Option ℕ)
idx_loop idx_to_hash want zero start end = ok none
idx_loop idx_to_hash want (suc fuel) start end =
    let mid = start + (end - start) / 2 in
    let above = idx_loop idx_to_hash want fuel (mid + 1) end in
    let below = idx_loop idx_to_hash want fuel start mid in
    if ltb start end
    then (do
      v ← idx_to_hash mid
      if bytes_lt v want then above else if bytes_lt want v then below else ok (some mid))
    else ok none

pub first_of_hash : List ℕ → Result ℕ
first_of_hash [] = err index_error
first_of_hash (b ∷ hash) = ok b

pub idx_from_hash : PackIdx → List ℕ → Result (Option ℕ)
idx_from_hash p hash = if not (length hash == 20) then err assertion_error else do
  b1 ← first_of_hash hash
  start ← fanout_before p.fanout b1
  end ← fanout_at p.fanout b1
  idx_loop p.idx_to_hash hash (end - start) start end

pub offset_of : PackIdx → Option ℕ → Result (Option ℕ)
offset_of p none = ok none
offset_of p (some idx) = do ofs ← p.ofs_from_idx idx; ok (some ofs)

pub find_offset : PackIdx → List ℕ → Result (Option ℕ)
find_offset p hash = do idx ← idx_from_hash p hash; offset_of p idx

pub location_of : PackIdx → Bool → Bool → Option ℕ → Result (Option ObjectLocation)
location_of p want_source want_offset none = ok none
location_of p want_source want_offset (some idx) =
    if want_source || want_offset
    then (do
      offset ← (if want_offset then offset_of p (some idx) else ok none)
      ok (
          some (record {
            pack = if want_source then some (basename p.name) else none;
            offset = offset;
          })))
    else ok (some object_exists)

pub exists : PackIdx → List ℕ → Bool → Bool → Result (Option ObjectLocation)
exists p [] want_source want_offset = ok none
exists p (b ∷ hash) want_source want_offset = do
  idx ← idx_from_hash p (b ∷ hash)
  location_of p want_source want_offset idx

-- `PackIdxV2`: where its tables stand in the mapped file.
pub record PackIdxV2 : Type 0 where
  pub map : List ℕ
  pub nsha : ℕ
  pub sha_ofs : ℕ
  pub ofstable_ofs : ℕ
  pub ofs64table_ofs : ℕ

-- `ofs32 & 0x80000000` and `ofs32 & 0x7fffffff` on a number below 2^32
pub oid_ofs_from_ofs32_ofs : PackIdxV2 → ℕ → Result ℕ
oid_ofs_from_ofs32_ofs p ofs32_ofs = do
  ofs32 ← unpack_from 4 p.map ofs32_ofs
  if not (ofs32 / 2 ^ 31 == 0)
      then unpack_from 8 p.map (p.ofs64table_ofs + ofs32 % 2 ^ 31 * 8)
      else ok ofs32

pub v2_ofs_from_idx : PackIdxV2 → ℕ → Result ℕ
v2_ofs_from_idx p idx =
    if leb p.nsha idx then err index_error else oid_ofs_from_ofs32_ofs p (p.ofstable_ofs + idx * 4)

pub v2_idx_to_hash : PackIdxV2 → ℕ → Result (List ℕ)
v2_idx_to_hash p idx =
    if leb p.nsha idx then err index_error else ok (slice p.map (p.sha_ofs + idx * 20) 20)

-- struct.unpack_from('!256I', map, offset)
unpack_words : ℕ → List ℕ → ℕ → Result (List ℕ)
unpack_words zero map ofs = ok []
unpack_words (suc n) map ofs = do
  word ← unpack_from 4 map ofs
  words ← unpack_words n map (ofs + 4)
  ok (word ∷ words)

abbrev pub v2_magic : List ℕ
v2_magic = 0o377 ∷ b't' ∷ b'O' ∷ b'c' ∷ 0 ∷ 0 ∷ 0 ∷ 2 ∷ []

pub v2_tables : List ℕ → ℕ → PackIdxV2
v2_tables map nsha = record {
  map = map;
  nsha = nsha;
  sha_ofs = 8 + 256 * 4;
  ofstable_ofs = 8 + 256 * 4 + nsha * 20 + nsha * 4;
  ofs64table_ofs = 8 + 256 * 4 + nsha * 20 + nsha * 4 + nsha * 4;
}

-- The constructor: the object as a `PackIdx`, with a last fanout entry for index -1.
pub open_v2 : List ℕ → List ℕ → Result PackIdx
open_v2 name map = if not (bytes_eq (slice map 0 8) v2_magic) then err assertion_error else do
  words ← unpack_words 256 map 8
  nsha ← fanout_at words 255
  if nsha == 0
      then err assertion_error
      else ok (record {
        name = name;
        fanout = words ++ 0 ∷ [];
        ofs_from_idx = v2_ofs_from_idx (v2_tables map nsha);
        idx_to_hash = v2_idx_to_hash (v2_tables map nsha);
      })
