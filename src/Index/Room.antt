-- ===== src/Index/Room.antt =====
-- What the Writer of lib/bup/index.py still has to write, and that a level can be written.
use bup.Base.{
  ℕ, ◌+◌, ◌<◌, ◌≤◌, ◌^◌, ◌≡◌, refl, ap, arith, true, Option, none, some, List, [], ◌∷◌, ◌++◌, ◌==◌,
  ltb, if◌then◌else◌, length, take, drop, length-append, All,
}
use bup.Base.Error.{ok, Returns}
use bup.Base.Struct.{pack_value, be_bytes}
use bup.Base.Packs.{AllFit, pack-AllFit, AllFit-pack, AllFit-after}
use bup.Index.{Entry, Platform, entry_sig, entry_values, entlen, packed}
use bup.Index.Writer.{Level, write_entry, write_entries, write_level, receive, last_name}
use bup.Index.Listing.{existing_entry-packed}

-- The entry can be packed, and its hash has 20 bytes.
unfoldable pub IsStorable : Platform → Entry → Type 0
IsStorable p e = AllFit (entry_sig p) (entry_values e) × (length e.sha ≡ 20)

pub IsStorable-packed :
    (p : Platform) (e : Entry) (b : List ℕ) → packed p e ≡ ok b → length e.sha ≡ 20 → IsStorable p e
unfolding IsStorable packed
IsStorable-packed p e b h s = (pack-AllFit (entry_sig p) (entry_values e) b h, s)

unfoldable pub with_children : Entry → ℕ → ℕ → Entry
with_children e ofs n = record e { children_ofs = ofs; children_n = n }

pub with_children-IsStorable :
    (p : Platform) (e : Entry) (ofs n : ℕ)
    → ofs < 256 ^ 8
    → n < 256 ^ 4
    → IsStorable p e
    → IsStorable p (with_children e ofs n)
unfolding IsStorable with_children pack_value
with_children-IsStorable p e ofs n h k (fit, s) =
    let o : ltb ofs (256 ^ 8) ≡ true = ground arith in
    let m : ltb n (256 ^ 4) ≡ true = ground arith in
    (
      AllFit-after (take 14 (entry_sig p)) (take 14 (entry_values e)) (drop 14 (entry_sig p))
          (drop 14 (entry_values e)) (drop 14 (entry_values (with_children e ofs n))) refl
          (λ (a, (b, (c, u))). ((be_bytes 8 ofs, rw o refl), ((be_bytes 4 n, rw m refl), (c, u))))
          fit,
      s,
    )

unfoldable pub units : List Level → ℕ
units [] = 0
units (l ∷ levels) = length l.list + l.count + 1 + units levels

-- The lowest level has no name.
unfoldable pub HasRoot : List Level → Type 0
HasRoot [] = ⊥
HasRoot (l ∷ []) = l.ename ≡ []
HasRoot (l ∷ parent ∷ above) = HasRoot (parent ∷ above)

HasRoot-receive :
    (c : Option (Entry × ℕ)) (l : Level) (above : List Level)
    → HasRoot (l ∷ above)
    → HasRoot (receive c l ∷ above)
unfolding HasRoot receive
HasRoot-receive none l above h = h
HasRoot-receive (some c) l [] h = h
HasRoot-receive (some c) l (parent ∷ above) h = h

module _ (p : Platform) where
  -- The bytes of entries.
  unfoldable pub sizes : List Entry → ℕ
  sizes [] = 0
  sizes (e ∷ es) = length e.basename + 1 + entlen p + sizes es

  pub sizes-append :
      (es : List Entry) (e : Entry)
      → sizes (es ++ e ∷ []) ≡ sizes es + (length e.basename + 1 + entlen p)
  unfolding sizes
  sizes-append [] e = omega arith
  sizes-append (d ∷ es) e = omega (arith, sizes-append es e)

  write_entry-Returns :
      (e : Entry)
      → IsStorable p e
      → Returns (λ b. length b ≡ length e.basename + 1 + entlen p) (write_entry p e)
  unfolding IsStorable write_entry packed
  write_entry-Returns e (h, s) =
      let (b, k) = AllFit-pack (entry_sig p) (entry_values e) h in
      let (l, found) = existing_entry-packed p e [] b [] [] 0 s k refl in
      (e.basename ++ 0 ∷ b, rw k refl, omega (arith, length-append e.basename (0 ∷ b)))

  write_entries-Returns :
      (es : List Entry)
      → All (IsStorable p) es
      → Returns (λ b. length b ≡ sizes es) (write_entries p es)
  unfolding write_entries sizes
  write_entries-Returns [] h = ([], refl, refl)
  write_entries-Returns (e ∷ es) (h, hs) =
      let (b, k, l) = write_entry-Returns e h in
      let (rest, k', l') = write_entries-Returns es hs in
      (b ++ rest, rw (k, k') refl, omega (arith, length-append b rest))

  -- A level is written, and its entry gets the place of its children.
  unfoldable pub LevelWritten : Level → List ℕ → Entry → List ℕ × Entry × ℕ → Type 0
  LevelWritten l f n (f', n', counted) =
      (length f' ≡ length f + sizes l.list)
      × (n' ≡ with_children n (length f) (length l.list))
      × (counted ≤ length l.list + l.count)

  pub write_level-Returns :
      (l : Level) (f : List ℕ) (n : Entry)
      → All (IsStorable p) l.list
      → Returns (LevelWritten l f n) (write_level p l f n)
  unfolding write_level LevelWritten with_children
  write_level-Returns l f n h =
      let (b, k, s) = write_entries-Returns l.list h in
      (
        (
          f ++ b,
          record n { children_ofs = length f; children_n = length l.list },
          if length l.list == 0 then 0 else length l.list + l.count,
        ),
        rw k refl,
        (omega (arith, length-append f b, s), refl, ground arith),
      )

  -- What the levels will write: their entries, and one for each of them.
  unfoldable pub pending : List Level → ℕ
  pending [] = 0
  pending (l ∷ levels) = sizes l.list + (length (last_name l.ename) + 1 + entlen p) + pending levels

  unfoldable pub AreStorable : List Level → Type 0
  AreStorable [] = Unit
  AreStorable (l ∷ levels) = All (IsStorable p) l.list × AreStorable levels

  -- The levels can be written to a file that stays below `size` bytes and `number` entries.
  unfoldable pub HasRoom : ℕ → ℕ → List ℕ → List Level → Type 0
  HasRoom size number f levels =
      HasRoot levels
      × AreStorable levels
      × (length f + pending levels ≤ size)
      × (units levels ≤ number)

  All-append :
      (es : List Entry) (e : Entry)
      → All (IsStorable p) es
      → IsStorable p e
      → All (IsStorable p) (es ++ e ∷ [])
  All-append [] e h k = (k, tt)
  All-append (d ∷ es) e (h, hs) k = (h, All-append es e hs k)

  -- A level that was written leaves what it took to its parent.
  pub HasRoom-leave :
      (size number : ℕ) (f : List ℕ) (l parent : Level) (above : List Level) (n : Entry)
      (f' : List ℕ) (n' : Entry) (counted : ℕ)
      → size < 256 ^ 8
      → number < 256 ^ 4
      → HasRoom size number f (l ∷ parent ∷ above)
      → IsStorable p n
      → n.basename ≡ last_name l.ename
      → LevelWritten l f n (f', n', counted)
      → HasRoom size number f' (receive (some (n', counted)) parent ∷ above)
  unfolding HasRoom HasRoot AreStorable pending units LevelWritten receive with_children
  HasRoom-leave size number f l parent above n f' n' counted h k (r, (s, (s', ss)), bytes, entries)
        good name (w1, w2, w3) =
      let stored : IsStorable p n' = rw w2 (
        with_children-IsStorable p n (length f) (length l.list) (omega arith) (omega arith) good) in
      let same : length n'.basename ≡ length (last_name l.ename) =
        rw (w2, ← name) (ap length refl) in
      (
        HasRoot-receive (some (n', counted)) parent above r,
        (All-append parent.list n' s' stored, ss),
        omega (arith, sizes-append parent.list n'),
        omega (arith, length-append parent.list (n' ∷ [])),
      )
