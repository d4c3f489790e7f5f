-- ===== src/Index/Additions.antt =====
-- A run of the Writer of lib/bup/index.py: calls of `_add`, and the flush.
use bup.Base.{
  ℕ, ◌+◌, ◌-◌, ◌<◌, ◌≤◌, ◌^◌, ◌≡◌, refl, arith, true, false, Option, none, List, [], ◌∷◌, ◌++◌,
  ◌==◌, ltb, if◌then◌else◌, length, All, Bool-cases, inl, inr, not, ◌&&◌, bytes_eq,
}
use bup.Base.Int.{ℤ}
use bup.Base.Error.{Result, ok, ◌>>=◌, Returns, Returns-bind}
use bup.Base.Struct.{pack_value, pack, be_bytes}
use bup.Base.Hex.{replicate}
use bup.Metadata.Equality.{list_eq, bytes_eq-Decides, list_eq-Decides}
use bup.Index.{Entry, Platform, packed, entlen}
use bup.Index.Writer.{
  Level, is_under, receive, write_level, last_name, blank_directory, blank_new_entry, close_levels,
  open_levels, leave_level, or_blank, put_entry, depth, golevel, Writer, names_le, add_entry, flush,
  new_writer,
}
use bup.Index.Replay.{Directory, absorb}
use bup.Index.Run.{IsAdded}
use bup.Index.Rooted.{slash}
use bup.Index.Room.{
  IsStorable, IsStorable-packed, LevelWritten, write_level-Returns, pending, units, sizes, HasRoot,
  AreStorable, HasRoom,
}
use bup.Index.Total.{path_size, ClosedTo, IsOn, Left, close_levels-Returns, golevel-Returns}

-- What is added: the offset of the empty metadata, a name and an entry.
abbrev pub Addition : Type 0
Addition = ℕ × Directory × Entry

-- A name below the root directory.
abbrev pub IsBelowRoot : Directory → Type 0
IsBelowRoot [] = ⊥
IsBelowRoot (x ∷ []) = ⊥
IsBelowRoot (x ∷ y ∷ ename) = x ≡ slash

abbrev pub IsGood : Addition → Type 0
IsGood (meta_ofs, ename, e) = IsAdded ename e × IsBelowRoot ename

-- Calls of `_add` one after the other, and the flush.
unfoldable pub write_index : Platform → ℕ → Option ℤ → List Addition → Writer → Result (List ℕ)
write_index p meta_ofs tmax [] w = flush p meta_ofs tmax w
write_index p meta_ofs tmax ((ofs, ename, e) ∷ additions) w = do
  w' ← add_entry p ofs tmax ename e w
  write_index p meta_ofs tmax additions w'

-- Every name comes before the one that precedes it.
abbrev pub IsDescending : Directory → List Addition → Type 0
IsDescending lastfile [] = Unit
IsDescending lastfile ((ofs, ename, e) ∷ additions) =
    ((not (length lastfile == 0) && names_le lastfile ename) ≡ false) × IsDescending ename additions

-- The entry can be packed.
abbrev pub Packs : Platform → Entry → Type 0
Packs p e = (b : List ℕ) × (packed p e ≡ ok b)

-- An addition can be packed, and a blank entry in its place.
abbrev pub CanPack : Platform → Option ℤ → Addition → Type 0
CanPack p tmax (ofs, ename, e) = Packs p e × Packs p (blank_directory [] ofs tmax)

-- The bytes of the entries of the additions and of the directories on the way to them, at most,
-- and the number of these entries.
unfoldable pub run_size : Platform → List Addition → ℕ
run_size p [] = 0
run_size p ((ofs, ename, e) ∷ additions) = path_size p ename + run_size p additions

unfoldable pub run_number : List Addition → ℕ
run_number [] = 0
run_number ((ofs, ename, e) ∷ additions) = length ename + run_number additions

-- The file fits into offsets of eight bytes, and the numbers of children into four bytes.
abbrev pub FitsIndex : Platform → List ℕ → List Addition → Type 0
FitsIndex p header additions =
    (length header + (1 + entlen p) + run_size p additions < 256 ^ 8)
    × (1 + run_number additions < 256 ^ 4)

under_nothing : (d : Directory) → is_under [] d ≡ true → d ≡ []
unfolding is_under
under_nothing [] h = refl
under_nothing (x ∷ d) h = absurd (cc)

module _ (p : Platform) where
  blank-IsStorable :
      (ofs : ℕ) (tmax : Option ℤ)
      → Packs p (blank_directory [] ofs tmax)
      → IsStorable p (blank_directory [] ofs tmax)
  unfolding blank_directory blank_new_entry replicate
  blank-IsStorable ofs tmax (b, h) = IsStorable-packed p _ b h refl

  -- The root level, with a number of entries that can be packed.
  CountedBy : ℕ → List ℕ × Level × List Level → Type 0
  CountedBy number (f, root, levels) = root.count ≤ number

  golevel_root-Returns :
      (meta_ofs : ℕ) (tmax : Option ℤ) (size number : ℕ) (f : List ℕ) (levels : List Level)
      → size < 256 ^ 8
      → number < 256 ^ 4
      → Packs p (blank_directory [] meta_ofs tmax)
      → HasRoom p size number f levels
      → Returns (CountedBy number) (golevel p meta_ofs tmax [] none f levels)
  unfolding golevel HasRoom HasRoot absorb receive ClosedTo IsOn depth open_levels put_entry
      CountedBy AreStorable units
  golevel_root-Returns meta_ofs tmax size number f [] small few blank h = absurd h.0
  golevel_root-Returns meta_ofs tmax size number f (l ∷ above) small few blank h =
      Returns-bind (ClosedTo p size number []) (CountedBy number)
        (close_levels p meta_ofs tmax [] f none (l ∷ above)) _
        (close_levels-Returns p meta_ofs tmax size number small few
          (blank-IsStorable meta_ofs tmax blank) [] f none (l ∷ above) h)
        (λ (f', levels) (room, on). put f' levels room on)
    where
      put :
          (f' : List ℕ) (levels : List Level)
          → HasRoom p size number f' levels
          → IsOn p [] levels
          → Returns
              (CountedBy number)
              (put_entry p meta_ofs tmax [] none f' (open_levels (0 - depth levels) [] levels))
      put f' [] room on = absurd room.0
      put f' (m ∷ levels) room on =
          let same : list_eq bytes_eq [] m.ename ≡ true =
            rw (under_nothing m.ename on) ((list_eq-Decides bytes_eq bytes_eq-Decides).0 []) in
          let none_opened : 0 - length m.ename ≡ 0 = omega arith in
          let n = or_blank [] meta_ofs tmax none in
          rw (none_opened, same)
            (Returns-bind (LevelWritten p m f' n) (CountedBy number) (write_level p m f' n) _
              (write_level-Returns p m f' n room.1.0)
              (λ (f2, n', counted) w.
                ((f2, m, leave_level (n', counted) levels), refl, omega (arith, room.3))))

  flush-Returns :
      (meta_ofs : ℕ) (tmax : Option ℤ) (size number : ℕ) (w : Writer)
      → size < 256 ^ 8
      → number < 256 ^ 4
      → Packs p (blank_directory [] meta_ofs tmax)
      → HasRoom p size number w.f w.levels
      → (m : List ℕ) × (flush p meta_ofs tmax w ≡ ok m)
  unfolding flush CountedBy pack pack_value
  flush-Returns meta_ofs tmax size number w small few blank h =
      let ((f, root, levels), g, counted) =
        golevel_root-Returns meta_ofs tmax size number w.f w.levels small few blank h in
      let few_enough : ltb (if root.count == 0 then 0 else root.count + 1) (256 ^ 8) ≡ true =
        ground arith in
      elim (Bool-cases (length w.levels == 0)) [
        | inl flushed ↦ (w.f, rw flushed refl)
        | inr opened ↦ (
          f ++ (be_bytes 8 (if root.count == 0 then 0 else root.count + 1) ++ []),
          rw (opened, g, few_enough) refl,
        )
      ]

  pub write_index-Returns :
      (meta_ofs : ℕ) (tmax : Option ℤ) (additions : List Addition) (size number : ℕ) (w : Writer)
      → All IsGood additions
      → All (CanPack p tmax) additions
      → Packs p (blank_directory [] meta_ofs tmax)
      → IsDescending w.lastfile additions
      → size + run_size p additions < 256 ^ 8
      → number + run_number additions < 256 ^ 4
      → HasRoom p size number w.f w.levels
      → (m : List ℕ) × (write_index p meta_ofs tmax additions w ≡ ok m)
  unfolding write_index add_entry Left run_size run_number
  write_index-Returns meta_ofs tmax [] size number w good packs blank order small few h =
      flush-Returns meta_ofs tmax size number w (omega arith) (omega arith) blank h
  write_index-Returns meta_ofs tmax ((ofs, ename, e) ∷ additions) size number w ((a, below), good)
        (((b, k), own), packs) blank (next, order) small few h =
      let ((f, left, levels), g, room) =
        golevel-Returns p ofs tmax size number ename e w.f w.levels (omega arith) (omega arith)
          (blank-IsStorable ofs tmax own) (omega (arith, a.0)) a.2 (IsStorable-packed p e b k a.3)
          h in
      let (m, written) =
        write_index-Returns meta_ofs tmax additions (size + path_size p ename)
          (number + length ename) (record { f = f; levels = levels; lastfile = ename }) good packs
          blank order (omega arith) (omega arith) room in
      (m, rw (next, g) written)

  pub new_writer-HasRoom :
      (header : List ℕ)
      → HasRoom p
          (length header + (1 + entlen p))
          1
          (new_writer header).f
          (new_writer header).levels
  unfolding HasRoom HasRoot AreStorable pending units sizes new_writer last_name
  new_writer-HasRoom header = (refl, (tt, tt), omega arith, omega arith)
