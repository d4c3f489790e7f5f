-- ===== src/Index/RoundTrip.antt =====
-- The Reader of lib/bup/index.py on the file that the Writer leaves.
use bup.Base.{
  ℕ, ◌+◌, ◌≤◌, ◌≡◌, refl, arith, true, false, not, Option, none, some, List, [], ◌∷◌, ◌++◌, ◌==◌,
  if◌then◌else◌, length, append_assoc, Bool-cases, All, inl, inr, ◌&&◌, ◌⊎◌,
}
use mathlib.Core.List.{map}
use bup.Base.Int.{ℤ, pos}
use bup.Base.Error.{ok, IfOk, IfOk-refl, IfOk-bind, IfOk-both, IfOk-ok}
use bup.Index.{Entry, Platform, entlen}
use bup.Index.Writer.{blank_directory, golevel, Writer, add_entry, flush, new_writer, names_le}
use bup.Index.Listing.{as_read}
use bup.Index.Stored.{IsLevel, Lists}
use bup.Index.Replay.{Directory, plain, directories, listed, blanks}
use bup.Base.Struct.{unsigned, int}
use bup.Base.Struct
use bup.Index.Run.{directories_after, Put, IsAdded, golevel_lem, map_append}
use bup.Index.Rooted.{slash, IsRooted, IsPut, golevel-IsPut}
use bup.Index.Reader.{iter}
use bup.Index.Additions.{
  Addition, IsBelowRoot, IsGood, write_index, IsDescending, Packs, CanPack, FitsIndex,
  write_index-Returns, new_writer-HasRoom,
}
use bup.Index.Flush.{IsRead, read_root, Flushed, flush_golevel}

-- What is listed for additions, from the directories that are open.
unfoldable pub replay : ℕ → Option ℤ → List Directory → List Addition → List Entry
replay meta_ofs tmax ds [] = blanks meta_ofs tmax [] ds
replay meta_ofs tmax ds ((ofs, ename, e) ∷ additions) =
    (blanks ofs tmax ename ds ++ listed ename e ∷ [])
    ++ replay meta_ofs tmax (directories_after ename ds) additions

unfoldable IsWriter : Platform → ℕ → List Entry → List Directory → Writer → Type 0
IsWriter p start out ds w =
    Lists p w.f w.levels out
    × (directories w.levels ≡ ds)
    × (start ≤ length w.f)
    × IsRooted w.levels

add_entry_lem :
    (p : Platform) (meta_ofs : ℕ) (tmax : Option ℤ) (start : ℕ) (ename : Directory) (e : Entry)
    (w : Writer) (out : List Entry) (ds : List Directory)
    → IsAdded ename e
    → IsBelowRoot ename
    → IsWriter p start out ds w
    → IfOk
        (λ w'.
          ((more : List Entry) × IsWriter p start (out ++ more) (directories_after ename ds) w'
            × (map plain more ≡ blanks meta_ofs tmax ename ds ++ listed ename e ∷ []))
          × (2 ≤ length w'.levels))
        (add_entry p meta_ofs tmax ename e w)
unfolding add_entry IsWriter Put IsPut
add_entry_lem p meta_ofs tmax start [] e w out ds a b h = absurd b
add_entry_lem p meta_ofs tmax start (x ∷ []) e w out ds a b h = absurd b
add_entry_lem p meta_ofs tmax start (x ∷ y ∷ ename) e w out ds a b (lists, dirs, s, r) =
    let name = x ∷ y ∷ ename in
    let grown : IfOk
        (Put p out (blanks meta_ofs tmax name ds ++ listed name e ∷ []) (directories_after name ds))
        (golevel p meta_ofs tmax name (some e) w.f w.levels) =
      rw (← dirs) (golevel_lem p meta_ofs tmax name e w.f w.levels out a lists) in
    let rooted : IfOk (IsPut p meta_ofs tmax start)
        (golevel p meta_ofs tmax name (some e) w.f w.levels) =
      rw b (golevel-IsPut p meta_ofs tmax start y ename e w.f w.levels s r) in
    elim (Bool-cases (not (length w.lastfile == 0) && names_le w.lastfile (x ∷ y ∷ ename))) [
      | inl late ↦ rw late tt
      | inr next ↦ rw next (
          IfOk-bind
            (λ t.
              Put p out (blanks meta_ofs tmax name ds ++ listed name e ∷ [])
                (directories_after name ds) t
              × IsPut p meta_ofs tmax start t)
            _ (golevel p meta_ofs tmax name (some e) w.f w.levels) _
            (IfOk-both _ _ (golevel p meta_ofs tmax name (some e) w.f w.levels) grown rooted)
            (λ (f, left, levels) ((more, l, n, o), (s', r', two)).
              ((more, (l, o, s', r'), n), two)))
    ]

flush_lem :
    (p : Platform) (meta_ofs : ℕ) (tmax : Option ℤ) (start : ℕ) (w : Writer) (out : List Entry)
    (ds : List Directory)
    → IsWriter p start out ds w
    → 2 ≤ length w.levels
    → IfOk (IsRead p start (map plain out ++ blanks meta_ofs tmax [] ds)) (flush p meta_ofs tmax w)
unfolding flush IsWriter Flushed IsRead
flush_lem p meta_ofs tmax start w out ds (lists, dirs, s, r) k =
    let some_level : length w.levels == 0 ≡ false = ground arith in
    let g = golevel p meta_ofs tmax [] none w.f w.levels in
    let new = map plain out ++ blanks meta_ofs tmax [] ds in
    let flushed : IfOk (Flushed p start new) g =
      rw (← dirs) (flush_golevel p meta_ofs tmax start w.f w.levels out lists s r k) in
    rw some_level (
      IfOk-bind (Flushed p start new) (IsRead p start new) g _ flushed
        (λ (f, root, levels) (f', b1, e, below, whole, s', name, sha, pk, y, n).
          let count = pos (if root.count == 0 then 0 else root.count + 1) in
          IfOk-bind (λ b. Struct.pack (unsigned 8 ∷ []) (int count ∷ []) ≡ ok b)
            (IsRead p start new) (Struct.pack (unsigned 8 ∷ []) (int count ∷ [])) _
            (IfOk-refl (Struct.pack (unsigned 8 ∷ []) (int count ∷ [])))
            (λ footer packed_footer.
              let eight : length footer ≡ 8 =
                (Struct.unpack-pack (unsigned 8 ∷ []) (int count ∷ []) footer (tt, tt)
                  packed_footer).0 in
              (
                below ++ as_read slash e ∷ [],
                rw (whole, append_assoc f' (slash ++ 0 ∷ (b1 ++ [])) footer)
                    (read_root p start f' footer b1 e below s' eight name sha pk y),
                n,
              ))))

run_lem :
    (p : Platform) (meta_ofs : ℕ) (tmax : Option ℤ) (start : ℕ) (additions : List Addition)
    (w : Writer) (out : List Entry) (ds : List Directory)
    → All IsGood additions
    → IsWriter p start out ds w
    → (1 ≤ length additions) ⊎ (2 ≤ length w.levels)
    → IfOk
        (IsRead p start (map plain out ++ replay meta_ofs tmax ds additions))
        (write_index p meta_ofs tmax additions w)
unfolding write_index replay
run_lem p meta_ofs tmax start [] w out ds good h (inl some_added) = absurd (omega arith)
run_lem p meta_ofs tmax start [] w out ds good h (inr k) =
    flush_lem p meta_ofs tmax start w out ds h k
run_lem p meta_ofs tmax start ((ofs, ename, e) ∷ additions) w out ds ((a, b), good) h k =
    IfOk-bind
      (λ w'.
        ((more : List Entry) × IsWriter p start (out ++ more) (directories_after ename ds) w'
          × (map plain more ≡ blanks ofs tmax ename ds ++ listed ename e ∷ []))
        × (2 ≤ length w'.levels))
      _ (add_entry p ofs tmax ename e w) _ (add_entry_lem p ofs tmax start ename e w out ds a b h)
      (λ w' ((more, h', n), two).
        rw
          (
            ← n,
            ← append_assoc (map plain out) (map plain more)
                (replay meta_ofs tmax (directories_after ename ds) additions),
            ← map_append out more,
          )
          (run_lem p meta_ofs tmax start additions w' (out ++ more) (directories_after ename ds)
            good h' (inr two)))

-- For additions below the root directory, at least one, each with the last part of its name, whose
-- parts are not empty and have no NUL, and a hash of 20 bytes, each name ordered before the one
-- that precedes it as _add wants it, where each entry and each blank one in its place can be
-- packed, the entries on the way to all names take less than 256 ** 8 bytes with the header, and
-- there are less than 256 ** 4 of them: the writer raises nothing for them and its flush, and the
-- reader lists of the file the added entries in their order, under their whole names and with what
-- was packed, and where a directory was left that was not added a blank entry for it, down to the
-- root directory. The places of the children are not compared.
pub iter-write_index :
    (p : Platform) (meta_ofs : ℕ) (tmax : Option ℤ) (header : List ℕ) (additions : List Addition)
    → All IsGood additions
    → 1 ≤ length additions
    → IsDescending [] additions
    → All (CanPack p tmax) additions
    → Packs p (blank_directory [] meta_ofs tmax)
    → FitsIndex p header additions
    → (m : List ℕ) × (es : List Entry) × (write_index p meta_ofs tmax additions (new_writer header)
        ≡ ok m)
      × (iter p (length header) m [] (λ e. true) ≡ ok es)
      × (map plain es ≡ replay meta_ofs tmax ([] ∷ []) additions)
unfolding IsRead new_writer IsWriter Lists IsLevel IsRooted
iter-write_index p meta_ofs tmax header additions good k order packs blank (small, few) =
    let w = new_writer header in
    let empty : IsWriter p (length header) [] ([] ∷ []) w =
      (([], [], refl, refl, tt, refl, refl), refl, omega arith, (refl, refl)) in
    let (m, written) =
      write_index-Returns p meta_ofs tmax additions (length header + (1 + entlen p)) 1 w good packs
        blank order small few (new_writer-HasRoom p header) in
    let (es, listed_of, same) =
      IfOk-ok (IsRead p (length header) (replay meta_ofs tmax ([] ∷ []) additions))
        (write_index p meta_ofs tmax additions w) m
        (run_lem p meta_ofs tmax (length header) additions w [] ([] ∷ []) good empty (inl k))
        written in
    (m, es, written, listed_of, same)
