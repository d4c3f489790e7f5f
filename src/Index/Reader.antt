-- ===== src/Index/Reader.antt =====
-- `ExistingEntry.iter` and the `Reader` of lib/bup/index.py. An empty name stands for None, and a
-- generator is the list that it yields, or what it raises.
use bup.Base.{
  ℕ, zero, suc, ◌+◌, ◌-◌, Bool, true, false, ◌&&◌, ◌||◌, not, Option, none, some, List, [], ◌∷◌,
  ◌++◌, ◌==◌, ltb, leb, if◌then◌else◌, length, bytes_eq, take, drop,
}
use bup.Base.Bytes.{ends_with}
use bup.Base.Error.{Result, ok, err, assertion_error, exception, ◌>>=◌}
use bup.Index.{Entry, Platform, entlen, existing_entry}

-- name.startswith(prefix)
unfoldable pub starts_with : List ℕ → List ℕ → Bool
starts_with name prefix = bytes_eq (take (length prefix) name) prefix

-- The bytes before the next NUL.
unfoldable pub before_nul : List ℕ → Option (List ℕ)
before_nul [] = none
before_nul (c ∷ m) = if c == 0 then some [] else prepend c (before_nul m)
  where
    prepend : ℕ → Option (List ℕ) → Option (List ℕ)
    prepend c none = none
    prepend c (some name) = some (c ∷ name)

-- `m.find(b'\0', ofs)` with the name before it, and the assertions on it.
unfoldable pub basename_of : Option (List ℕ) → Result (List ℕ)
basename_of none = err assertion_error
basename_of (some name) = if length name == 0 then err assertion_error else ok name

unfoldable pub basename_at : List ℕ → ℕ → Result (List ℕ)
basename_at m ofs = basename_of (before_nul (drop ofs m))

unfoldable pub slash_name : List ℕ → List ℕ
slash_name name =
    if not (length name == 0) && not (ends_with name (b'/' ∷ [])) then name ++ b'/' ∷ [] else name

unfoldable pub goes_into : List ℕ → (Entry → Bool) → Entry → Bool
goes_into dname wantrecurse child =
    (length dname == 0
      || starts_with child.name dname
      || (ends_with child.name (b'/' ∷ []) && starts_with dname child.name))
    && wantrecurse child

unfoldable pub is_shown : List ℕ → List ℕ → Entry → Bool
is_shown name dname child =
    length name == 0 || bytes_eq child.name name || starts_with child.name dname

unfoldable pub descend : (Entry → Result (List Entry)) → Bool → Entry → Result (List Entry)
descend iter_child true child = iter_child child
descend iter_child false child = ok []

-- The loop over the children.
unfoldable pub iter_children :
    Platform
    → List ℕ
    → List ℕ
    → (Entry → Bool)
    → (Entry → Result (List Entry))
    → List ℕ
    → ℕ
    → ℕ
    → Result (List Entry)
iter_children p m name wantrecurse iter_child parent_name zero ofs = ok []
iter_children p m name wantrecurse iter_child parent_name (suc n) ofs = do
  basename ← basename_at m ofs
  child ← existing_entry p basename (parent_name ++ basename) m (ofs + length basename + 1)
  below ← descend iter_child (goes_into (slash_name name) wantrecurse child) child
  rest ←
      iter_children p m name wantrecurse iter_child parent_name n
        (ofs + length basename + 1 + entlen p)
  ok (below ++ ((if is_shown name (slash_name name) child then child ∷ [] else []) ++ rest))

-- `ExistingEntry.iter`: the recursion stops in a file whose children precede their directory.
unfoldable pub iter_entry :
    Platform → List ℕ → List ℕ → (Entry → Bool) → ℕ → Entry → Result (List Entry)
iter_entry p m name wantrecurse zero e = err exception
iter_entry p m name wantrecurse (suc fuel) e =
    if ltb (length m) e.children_ofs
    then err assertion_error
    else iter_children p m name wantrecurse (iter_entry p m name wantrecurse fuel) e.name
        e.children_n e.children_ofs

-- `Reader.iter` over the mapped file, whose entries begin at entries_start.
unfoldable pub iter : Platform → ℕ → List ℕ → List ℕ → (Entry → Bool) → Result (List Entry)
iter p entries_start m name wantrecurse =
    if not (ltb (entries_start + entlen p) (length m)) then ok [] else do
      root ← existing_entry p (b'/' ∷ []) (b'/' ∷ []) m (length m - 8 - entlen p)
      below ← iter_entry p m name wantrecurse (suc (length m)) root
      ok (
          below
          ++ (if length name == 0 || bytes_eq (slash_name name) root.name then root ∷ [] else []))

-- `Reader.forward_iter`, on the length of the file as fuel.
unfoldable pub forward_iter : Platform → ℕ → List ℕ → ℕ → Result (List Entry)
forward_iter p zero m ofs = ok []
forward_iter p (suc fuel) m ofs = if not (leb (ofs + entlen p + 8) (length m)) then ok [] else do
  basename ← basename_at m ofs
  e ← existing_entry p basename basename m (ofs + length basename + 1)
  rest ← forward_iter p fuel m (ofs + length basename + 1 + entlen p)
  ok (e ∷ rest)
