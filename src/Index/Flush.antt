-- ===== src/Index/Flush.antt =====
-- The last `_golevel` of the Writer of lib/bup/index.py, and the file that ends with the root
-- directory for the Reader.
use bup.Base.{
  ℕ, suc, ◌+◌, ◌-◌, ◌≤◌, ◌≡◌, refl, arith, true, Option, none, List, [], ◌∷◌, ◌++◌, ltb, length,
  append_assoc, append-nil, length-append, All, bytes_eq,
}
use mathlib.Core.Path.{subst}
use mathlib.Core.List.{map}
use bup.Base.Int.{ℤ}
use bup.Base.Error.{ok, IfOk, IfOk-bind, IfOk-both}
use bup.Metadata.Equality.{list_eq}
use bup.Index.{Entry, Platform}
use bup.Index.Writer.{
  Level, write_level, receive, close_levels, open_levels, leave_level, or_blank, put_entry, depth,
  golevel,
}
use bup.Index.Listing.{as_read, IsListable, Written, AreListed}
use bup.Index.Stored.{joined, Lists}
use bup.Index.Replay.{
  Directory, plain, directories, blanks, kept, IsWrittenLevel, write_level_lem, absorb, Grown,
  Closes, close_lem,
}
use bup.Index.{packed, existing_entry, entlen}
use bup.Index.Listing.{existing_entry-packed}
use bup.Index.Stored.{Yields}
use bup.Index.Run.{map_append}
use bup.Index.Rooted.{slash, IsRooted, IsClosed, close_levels-IsClosed}
use bup.Index.Reader.{iter_entry, iter}

-- What the reader lists of the bytes of a file.
unfoldable pub IsRead : Platform → ℕ → List Entry → List ℕ → Type 0
IsRead p start new m =
    (es : List Entry) × (iter p start m [] (λ e. true) ≡ ok es) × (map plain es ≡ new)

-- A file whose last entry is the root directory, behind which the footer stands.
pub read_root :
    (p : Platform) (start : ℕ) (f footer b1 : List ℕ) (r : Entry) (below : List Entry)
    → start ≤ length f
    → length footer ≡ 8
    → r.basename ≡ slash
    → length r.sha ≡ 20
    → packed p r ≡ ok b1
    → Yields p f (as_read slash r) below
    → iter p start (f ++ ((slash ++ 0 ∷ (b1 ++ [])) ++ footer)) [] (λ e. true)
      ≡ ok (below ++ as_read slash r ∷ [])
unfolding iter Yields
read_root p start f footer b1 r below s eight name sha k y =
    let rest = (slash ++ 0 ∷ (b1 ++ [])) ++ footer in
    let m = f ++ rest in
    let before = f ++ (b'/' ∷ 0 ∷ []) in
    let whole : m ≡ before ++ (b1 ++ footer) = simp (append_assoc, append-nil) in
    let (sized, found) =
      existing_entry-packed p r slash b1 before footer (length before) sha k refl in
    let long : length m ≡ length f + 2 + entlen p + 8 = rw whole (
      omega (
        arith,
        length-append before (b1 ++ footer),
        length-append b1 footer,
        length-append f (b'/' ∷ 0 ∷ []),
      )) in
    let at : length m - 8 - entlen p ≡ length before =
      omega (arith, length-append f (b'/' ∷ 0 ∷ [])) in
    let root : existing_entry p slash slash m (length m - 8 - entlen p) ≡ ok (as_read slash r) =
      rw (at, whole)
        (subst
          (λ (t : List ℕ).
            existing_entry p t slash (before ++ (b1 ++ footer)) (length before)
            ≡ ok (as_read slash r))
          name found) in
    let inside : ltb (start + entlen p) (length m) ≡ true = ground arith in
    let listed_below : iter_entry p m [] (λ e. true) (suc (length m)) (as_read slash r) ≡ ok below =
      y rest (suc (length m)) (omega arith) in
    rw (inside, root, listed_below)

-- What the last `_golevel` leaves: a file that ends with the entry of the root directory.
unfoldable pub Flushed : Platform → ℕ → List Entry → List ℕ × Level × List Level → Type 0
Flushed p start new (f, left, levels) =
    (f' : List ℕ) × (b1 : List ℕ) × (r : Entry) × (below : List Entry) × (f
      ≡ f' ++ (slash ++ 0 ∷ (b1 ++ [])))
    × (start ≤ length f')
    × (r.basename ≡ slash)
    × (length r.sha ≡ 20)
    × (packed p r ≡ ok b1)
    × Yields p f' (as_read slash r) below
    × (map plain (below ++ as_read slash r ∷ []) ≡ new)

put_root :
    (p : Platform) (meta_ofs : ℕ) (tmax : Option ℤ) (start : ℕ) (f : List ℕ) (root : Level)
    (r : Entry) (out : List Entry)
    → start ≤ length f
    → root.ename ≡ []
    → root.list ≡ r ∷ []
    → r.basename ≡ slash
    → Lists p f (root ∷ []) out
    → IfOk (Flushed p start (map plain out)) (put_entry p meta_ofs tmax [] none f (root ∷ []))
unfolding put_entry Flushed IsWrittenLevel leave_level Written Lists
put_root p meta_ofs tmax start f root r out s named entries name
      (o1, o2, h1, level, good, listing, whole) =
    let blank = or_blank [] meta_ofs tmax none in
    let here : list_eq bytes_eq [] root.ename ≡ true = rw named refl in
    let written : (f' : List ℕ) (b : List ℕ)
        → Written p (r ∷ []) b
        → All IsListable (r ∷ [])
        → AreListed (Yields p f) [] (r ∷ []) o2
        → f' ≡ f ++ b
        → Flushed p start (map plain out) (f', root, []) =
      λ f' b (b1, b2, k, none_left, c) ((filled, chars, sha), more) (below, rest, y, no_more, d) e.
        (
          f,
          b1,
          r,
          below,
          rw (e, c, none_left, name) refl,
          s,
          name,
          sha,
          k,
          subst (λ (t : List ℕ). Yields p f (as_read t r) below) name y,
          rw (whole, h1, d, no_more, name) refl,
        ) in
    rw here (
      IfOk-bind (IsWrittenLevel p root f blank) (Flushed p start (map plain out))
        (write_level p root f blank) _ (write_level_lem p root f blank)
        (λ (f', n, counted) (b, w, fe, ne).
          written f' b (subst (λ (es : List Entry). Written p es b) entries w)
            (subst (λ (es : List Entry). All IsListable es) entries good)
            (subst (λ (es : List Entry). AreListed (Yields p f) [] es o2) entries
              (subst (λ (d : Directory). AreListed (Yields p f) (joined d) root.list o2) named
                listing))
            fe))

pub flush_golevel :
    (p : Platform) (meta_ofs : ℕ) (tmax : Option ℤ) (start : ℕ) (f : List ℕ) (levels : List Level)
    (out : List Entry)
    → Lists p f levels out
    → start ≤ length f
    → IsRooted levels
    → 2 ≤ length levels
    → IfOk
        (Flushed p start (map plain out ++ blanks meta_ofs tmax [] (directories levels)))
        (golevel p meta_ofs tmax [] none f levels)
unfolding golevel Closes Grown absorb receive IsClosed open_levels
flush_golevel p meta_ofs tmax start f [] out lists s r k = tt
flush_golevel p meta_ofs tmax start f (l ∷ above) out lists s r k =
    let new = blanks meta_ofs tmax [] (directories (l ∷ above)) in
    let closed = close_levels p meta_ofs tmax [] f none (l ∷ above) in
    IfOk-bind
      (λ t.
        Grown p meta_ofs tmax out new (kept [] (directories (l ∷ above))) t
        × IsClosed p meta_ofs tmax start t)
      _ closed _
      (IfOk-both _ _ closed (close_lem p meta_ofs tmax [] (l ∷ above) f none out lists)
        (close_levels-IsClosed p meta_ofs tmax start f none (l ∷ above) s r k))
      (λ (f', levels) ((more, grown, n, ds), (s', (root, r, whole, named, entries, name))).
        last f' levels root r more grown n s' whole named entries name)
  where
    last :
        (f' : List ℕ) (levels : List Level) (root : Level) (r : Entry) (more : List Entry)
        → Lists p f' levels (out ++ more)
        → map plain more ≡ blanks meta_ofs tmax [] (directories (l ∷ above))
        → start ≤ length f'
        → levels ≡ root ∷ []
        → root.ename ≡ []
        → root.list ≡ r ∷ []
        → r.basename ≡ slash
        → IfOk
            (Flushed p start (map plain out ++ blanks meta_ofs tmax [] (directories (l ∷ above))))
            (put_entry p meta_ofs tmax [] none f' (open_levels (0 - depth levels) [] levels))
    last f' levels root r more grown n s' whole named entries name =
        let none_more : 0 - depth levels ≡ 0 = omega arith in
        let lists' : Lists p f' (root ∷ []) (out ++ more) =
          subst (λ (ls : List Level). Lists p f' ls (out ++ more)) whole grown in
        rw (none_more, whole, ← n, ← map_append out more)
          (put_root p meta_ofs tmax start f' root r (out ++ more) s' named entries name lists')
