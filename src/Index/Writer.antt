-- ===== src/Index/Writer.antt =====
-- `Level`, `_golevel` and the `Writer` of lib/bup/index.py. Levels are listed from the current one
-- to the root; the file is its bytes.
use bup.Base.{
  ℕ, zero, suc, ◌+◌, ◌-◌, Bool, true, false, ◌&&◌, not, Option, none, some, List, [], ◌∷◌, ◌++◌,
  ◌==◌, if◌then◌else◌, length, bytes_eq, bit_or, take,
}
use bup.Base.Int.{ℤ, pos}
use bup.Base.Lex.{bytes_lt}
use bup.Base.Error.{Result, ok, err, assertion_error, attribute_error, type_error, ◌>>=◌}
use bup.Base.Struct.{unsigned, int}
use bup.Base.Struct
use bup.Metadata.Equality.{list_eq}
use bup.Index.{fixup_time, Entry, Platform, empty_sha, ix_exists, packed}

pub record Level : Type 0 where
  pub ename : List (List ℕ)
  pub list : List Entry
  pub count : ℕ

-- `BlankNewEntry`
unfoldable pub blank_new_entry : List ℕ → ℕ → Option ℤ → Entry
blank_new_entry basename meta_ofs tmax = record {
  basename = basename;
  name = basename;
  tmax = tmax;
  dev = pos 0;
  ino = 0;
  nlink = pos 0;
  ctime = fixup_time tmax (pos 0);
  mtime = fixup_time tmax (pos 0);
  atime = pos 0;
  size = 0;
  mode = pos 0;
  gitmode = pos 0;
  sha = empty_sha;
  flags = 0;
  children_ofs = 0;
  children_n = 0;
  meta_ofs = meta_ofs;
}

-- `Entry.write`
unfoldable pub write_entry : Platform → Entry → Result (List ℕ)
write_entry p e = do data_bytes ← packed p e; ok (e.basename ++ 0 ∷ data_bytes)

unfoldable pub write_entries : Platform → List Entry → Result (List ℕ)
write_entries p [] = ok []
write_entries p (e ∷ es) = do b ← write_entry p e; rest ← write_entries p es; ok (b ++ rest)

-- `(n.children_ofs,n.children_n) = level.write(f)`, with what it adds to the count of the parent.
unfoldable pub write_level : Platform → Level → List ℕ → Entry → Result (List ℕ × Entry × ℕ)
write_level p l f n = do
  b ← write_entries p l.list
  let counted = if length l.list == 0 then 0 else length l.list + l.count
  ok (f ++ b, record n { children_ofs = length f; children_n = length l.list }, counted)

-- level.parent.list.append(n)
unfoldable pub receive : Option (Entry × ℕ) → Level → Level
receive none l = l
receive (some (n, counted)) l = record l { list = l.list ++ n ∷ []; count = l.count + counted }

-- level.ename[-1]
unfoldable pub last_name : List (List ℕ) → List ℕ
last_name [] = []
last_name (x ∷ []) = x
last_name (x ∷ y ∷ ename) = last_name (y ∷ ename)

unfoldable pub is_under : List (List ℕ) → List (List ℕ) → Bool
is_under ename dir = list_eq bytes_eq (take (length dir) ename) dir

-- `n.flags |= IX_EXISTS`
unfoldable pub blank_directory : List (List ℕ) → ℕ → Option ℤ → Entry
blank_directory ename meta_ofs tmax =
    let n = blank_new_entry (last_name ename) meta_ofs tmax in
    record n { flags = bit_or n.flags ix_exists }

-- The first loop, with what the level gets from the one that was closed.
unfoldable pub close_levels :
    Platform
    → ℕ
    → Option ℤ
    → List (List ℕ)
    → List ℕ
    → Option (Entry × ℕ)
    → List Level
    → Result (List ℕ × List Level)
close_levels p meta_ofs tmax ename f closed [] = err attribute_error
close_levels p meta_ofs tmax ename f closed (l ∷ parents) =
    let level = receive closed l in
    if is_under ename level.ename then ok (f, level ∷ parents) else do
      (f', n, counted) ← write_level p level f (blank_directory level.ename meta_ofs tmax)
      close_levels p meta_ofs tmax ename f' (some (n, counted)) parents

-- The second loop.
unfoldable pub open_levels : ℕ → List (List ℕ) → List Level → List Level
open_levels zero ename levels = levels
open_levels (suc more) ename [] = []
open_levels (suc more) ename (l ∷ parents) =
    open_levels more ename
      (record { ename = take (length l.ename + 1) ename; list = []; count = 0 } ∷ l ∷ parents)

unfoldable pub leave_level : Entry × ℕ → List Level → List Level
leave_level closed [] = []
leave_level closed (l ∷ parents) = receive (some closed) l ∷ parents

-- `newentry or BlankNewEntry(…)`
unfoldable pub or_blank : List (List ℕ) → ℕ → Option ℤ → Option Entry → Entry
or_blank ename meta_ofs tmax none = blank_new_entry (last_name ename) meta_ofs tmax
or_blank ename meta_ofs tmax (some e) = e

unfoldable pub put_entry :
    Platform
    → ℕ
    → Option ℤ
    → List (List ℕ)
    → Option Entry
    → List ℕ
    → List Level
    → Result (List ℕ × Level × List Level)
put_entry p meta_ofs tmax ename newentry f [] = err attribute_error
put_entry p meta_ofs tmax ename newentry f (level ∷ parents) =
    if not (list_eq bytes_eq ename level.ename) then err assertion_error else do
      (f', n, counted) ← write_level p level f (or_blank ename meta_ofs tmax newentry)
      ok (f', level, leave_level (n, counted) parents)

-- len(level.ename)
unfoldable pub depth : List Level → ℕ
depth [] = 0
depth (level ∷ above) = length level.ename

-- `_golevel`, with the level that it leaves. `metastore.store(empty_metadata)` gave meta_ofs.
unfoldable pub golevel :
    Platform
    → ℕ
    → Option ℤ
    → List (List ℕ)
    → Option Entry
    → List ℕ
    → List Level
    → Result (List ℕ × Level × List Level)
golevel p meta_ofs tmax ename newentry f [] = err assertion_error
golevel p meta_ofs tmax ename newentry f (l ∷ parents) = do
  (f', levels) ← close_levels p meta_ofs tmax ename f none (l ∷ parents)
  put_entry p meta_ofs tmax ename newentry f'
      (open_levels (length ename - depth levels) ename levels)

pub record Writer : Type 0 where
  pub f : List ℕ
  pub levels : List Level
  pub lastfile : List (List ℕ)

-- a <= b of lists of bytes
unfoldable pub names_le : List (List ℕ) → List (List ℕ) → Bool
names_le [] bs = true
names_le (a ∷ xs) [] = false
names_le (a ∷ xs) (b ∷ ys) = if bytes_eq a b then names_le xs ys else bytes_lt a b

-- `_add`, whose message joins bytes by a str: a TypeError.
unfoldable pub add_entry : Platform → ℕ → Option ℤ → List (List ℕ) → Entry → Writer → Result Writer
add_entry p meta_ofs tmax ename entry w =
    if not (length w.lastfile == 0) && names_le w.lastfile ename then err type_error else do
      (f, left, levels) ← golevel p meta_ofs tmax ename (some entry) w.f w.levels
      ok (record { f = f; levels = levels; lastfile = ename })

-- `flush`: the bytes of the file. A writer that has flushed has no level, and does nothing.
unfoldable pub flush : Platform → ℕ → Option ℤ → Writer → Result (List ℕ)
flush p meta_ofs tmax w = if length w.levels == 0 then ok w.f else do
  (f, root, levels) ← golevel p meta_ofs tmax [] none w.f w.levels
  footer ←
      Struct.pack (unsigned 8 ∷ []) (int (pos (if root.count == 0 then 0 else root.count + 1)) ∷ [])
  ok (f ++ footer)

-- The file begins with the signature and the entry format.
unfoldable pub new_writer : List ℕ → Writer
new_writer header = record {
  f = header;
  levels = record { ename = []; list = []; count = 0 } ∷ [];
  lastfile = [];
}
