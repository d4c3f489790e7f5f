-- ===== src/Git/Trees.antt =====
-- Git trees of lib/bup/git.py: `tree_encode`, `tree_entries` and `find_tree_entry`. An entry is (mode, name, oid). Of what
-- Python's int(mode, 8) takes, a model of the digits is here: a sign, a prefix, blanks and
-- underscores, which git does not write, are an error.
pub mod Find
pub mod Order
pub mod Parts
pub mod RoundTrip
use bup.Base.{
  ℕ, zero, suc, ◌+◌, ◌-◌, ◌*◌, ◌/◌, ◌%◌, Bool, true, false, ◌&&◌, ◌||◌, not, Option, none, some,
  List, [], ◌∷◌, ◌++◌, ltb, leb, ◌==◌, if◌then◌else◌, length, take, drop, bit_and, bytes_eq,
}
use bup.Base.Bytes.{slice, ends_with}
use bup.Base.Lex.{bytes_lt}
use bup.Base.Error.{Result, ok, err, assertion_error, value_error, ◌>>=◌}
use bup.Git.Names.{s_isdir}

pub record TreeEntry : Type 0 where
  pub mode : ℕ
  pub name : List ℕ
  pub oid : List ℕ

unfoldable pub shalist_item_sort_key : TreeEntry → List ℕ
shalist_item_sort_key ent = if s_isdir ent.mode then ent.name ++ b'/' ∷ [] else ent.name

-- sorted(shalist, key=shalist_item_sort_key), which keeps the order of equal keys.
pub insert_sorted : TreeEntry → List TreeEntry → List TreeEntry
insert_sorted ent [] = ent ∷ []
insert_sorted ent (next ∷ shalist) =
    let further = insert_sorted ent shalist in
    if bytes_lt (shalist_item_sort_key next) (shalist_item_sort_key ent)
    then next ∷ further
    else ent ∷ next ∷ shalist

pub sorted : List TreeEntry → List TreeEntry
sorted [] = []
sorted (ent ∷ shalist) = insert_sorted ent (sorted shalist)

-- b'%o' % mode; a number has at most as many digits as it counts, and one more.
pub octal_loop : ℕ → ℕ → List ℕ
octal_loop zero n = []
octal_loop (suc rounds) n =
    let front = octal_loop rounds (n / 8) in
    if n / 8 == 0 then (b'0' + n) ∷ [] else front ++ (b'0' + n % 8) ∷ []

pub octal : ℕ → List ℕ
octal n = octal_loop (suc n) n

-- The line `s` of an entry. A mode is not 0, so that its octal form has no 0 in front, and the last
-- assertion of the loop holds.
pub encode_entry : TreeEntry → Result (List ℕ)
encode_entry ent =
    if ent.mode == 0
    then err assertion_error
    else if length ent.name == 0
    then err assertion_error
    else if not (length ent.oid == 20)
    then err assertion_error
    else ok (octal ent.mode ++ (b' ' ∷ (ent.name ++ (0 ∷ ent.oid))))

pub encode_entries : List TreeEntry → Result (List ℕ)
encode_entries [] = ok []
encode_entries (ent ∷ shalist) = do s ← encode_entry ent; l ← encode_entries shalist; ok (s ++ l)

pub tree_encode : List TreeEntry → Result (List ℕ)
tree_encode shalist = encode_entries (sorted shalist)

further_on : ℕ → Option ℕ → Option ℕ
further_on n none = none
further_on n (some i) = some (n + i)

-- bytes.find(c), with none for -1, and from a place on
pub index_of : ℕ → List ℕ → Option ℕ
index_of c [] = none
index_of c (b ∷ bs) = let further = index_of c bs in if b == c then some 0 else further_on 1 further

pub find_from : ℕ → List ℕ → ℕ → Option ℕ
find_from c tree_data ofs = further_on ofs (index_of c (drop ofs tree_data))

-- tree_data[start:end]
abbrev pub between : List ℕ → ℕ → ℕ → List ℕ
between tree_data start end = take (end - start) (drop start tree_data)

digit : ℕ → ℕ → Result ℕ
digit n c = if leb b'0' c && leb c b'7' then ok (n * 8 + (c - b'0')) else err value_error

digits : ℕ → List ℕ → Result ℕ
digits n [] = ok n
digits n (c ∷ cs) = do n' ← digit n c; digits n' cs

-- int(mode, 8)
pub int_8 : List ℕ → Result ℕ
int_8 [] = err value_error
int_8 (c ∷ cs) = digits 0 (c ∷ cs)

-- The entry from `ofs` to its NUL at `z`. If there is no blank then `mode_end` is -1.
pub read_entry : List ℕ → ℕ → ℕ → Option ℕ → Result TreeEntry
read_entry tree_data ofs z (some mode_end) = do
  mode ← int_8 (between tree_data ofs mode_end)
  ok (record {
    mode = mode;
    name = between tree_data (mode_end + 1) z;
    oid = slice tree_data (z + 1) 20;
  })
read_entry tree_data ofs z none = do
  mode ← int_8 (between tree_data ofs (length tree_data - 1))
  ok (record { mode = mode; name = take z tree_data; oid = slice tree_data (z + 1) 20 })

-- What the loop does after `z = tree_data.find(...)`, where `more` is the loop from `z + 21` on.
pub entries_after : List ℕ → ℕ → Option ℕ → (ℕ → Result (List TreeEntry)) → Result (List TreeEntry)
entries_after tree_data ofs none more = err assertion_error
entries_after tree_data ofs (some z) more = if not (ltb ofs z) then err assertion_error else do
  ent ← read_entry tree_data ofs z (find_from b' ' tree_data ofs)
  result ← more (z + 21)
  ok (ent ∷ result)

pub entries_loop : ℕ → List ℕ → ℕ → Result (List TreeEntry)
entries_loop zero tree_data ofs = ok []
entries_loop (suc fuel) tree_data ofs =
    if ltb ofs (length tree_data)
    then entries_after tree_data ofs (find_from 0 tree_data ofs) (entries_loop fuel tree_data)
    else ok []

-- Each round passes 22 bytes at least.
pub tree_entries : List ℕ → Result (List TreeEntry)
tree_entries tree_data = entries_loop (length tree_data) tree_data 0

-- The name from behind the blank to the NUL; without a blank from the start of the data.
pub name_before : List ℕ → ℕ → Option ℕ → List ℕ
name_before tree_data z (some mode_end) = between tree_data (mode_end + 1) z
name_before tree_data z none = take z tree_data

pub found_entry : Result TreeEntry → Result (Option TreeEntry)
found_entry entry = do ent ← entry; ok (some ent)

-- What the loop of find_tree_entry does with the entry from `ofs` on.
pub find_after :
    List ℕ → List ℕ → ℕ → Option ℕ → (ℕ → Result (Option TreeEntry)) → Result (Option TreeEntry)
find_after named tree_data ofs none more = err assertion_error
find_after named tree_data ofs (some z) more =
    let mode_end = find_from b' ' tree_data ofs in
    let name = name_before tree_data z mode_end in
    let dirname = named ++ b'/' ∷ [] in
    if not (ltb ofs z)
    then err assertion_error
    else if bytes_eq name named || bytes_eq name dirname
    then found_entry (read_entry tree_data ofs z mode_end)
    else if bytes_lt dirname name
    then ok none
    else more (z + 21)

pub find_loop : ℕ → List ℕ → List ℕ → ℕ → Result (Option TreeEntry)
find_loop zero named tree_data ofs = ok none
find_loop (suc fuel) named tree_data ofs =
    if ltb ofs (length tree_data)
    then find_after named tree_data ofs (find_from 0 tree_data ofs) (find_loop fuel named tree_data)
    else ok none

pub find_tree_entry : List ℕ → List ℕ → Result (Option TreeEntry)
find_tree_entry named tree_data =
    if ends_with named (b'/' ∷ [])
    then err assertion_error
    else find_loop (length tree_data) named tree_data 0
