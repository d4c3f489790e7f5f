-- ===== src/Index/Replay.antt =====
-- What the index lists after a run of the writer, without its file: a blank entry for a directory
-- that is left and was not added, and the entries in the order in which they were added.
use bup.Base.{
  ap, ◌∙◌, ◌&&◌, Bool, false, ℕ, ◌≡◌, refl, sym, true, Option, none, some, List, [], ◌∷◌, ◌++◌,
  if◌then◌else◌, length, take, append_assoc, append-nil, Bool-cases, inl, inr, bytes_eq,
}
use mathlib.Core.Path.{subst}
use mathlib.Core.List.{map}
use bup.Base.Int.{ℤ}
use bup.Base.Error.{Result, ok, ◌>>=◌, IfOk, IfOk-bind, IfOk-map}
use bup.Base.Hex.{replicate}
use bup.Metadata.Equality.{bytes_eq-Decides, list_eq-Decides}
use bup.Index.{Entry, Platform}
use bup.Index.Writer.{
  Level, write_entries, write_level, receive, is_under, blank_directory, blank_new_entry,
  close_levels,
}
use bup.Index.Listing.{as_read, Written, write_entries_lem}
use bup.Index.Stored.{joined, Lists, Lists-leave}

abbrev pub Directory : Type 0
Directory = List (List ℕ)

-- An entry but for the place of its children.
abbrev pub plain : Entry → Entry
plain e = record e { children_ofs = 0; children_n = 0 }

abbrev pub directories : List Level → List Directory
directories [] = []
directories (l ∷ levels) = l.ename ∷ directories levels

-- What is listed for an entry of a name.
abbrev pub listed : Directory → Entry → Entry
listed ename e = plain (as_read (joined ename) e)

-- The name of a directory or of what is in it.
pub is_below : Directory → Directory → Bool
is_below ename [] = true
is_below [] (d ∷ dir) = false
is_below (x ∷ ename) (d ∷ dir) = bytes_eq x d && is_below ename dir

pub is_under-is_below : (ename dir : Directory) → is_under ename dir ≡ is_below ename dir
unfolding is_under is_below
is_under-is_below ename [] = refl
is_under-is_below [] (d ∷ dir) = refl
is_under-is_below (x ∷ ename) (d ∷ dir) = ap (λ t. bytes_eq x d && t) (is_under-is_below ename dir)

-- The directories that are left for a name, and those that stay.
unfoldable pub blanks : ℕ → Option ℤ → Directory → List Directory → List Entry
blanks meta_ofs tmax ename [] = []
blanks meta_ofs tmax ename (d ∷ ds) =
    if is_below ename d
    then []
    else listed d (blank_directory d meta_ofs tmax) ∷ blanks meta_ofs tmax ename ds

unfoldable pub kept : Directory → List Directory → List Directory
kept ename [] = []
kept ename (d ∷ ds) = if is_below ename d then d ∷ ds else kept ename ds

-- What `write_level` did.
unfoldable pub IsWrittenLevel : Platform → Level → List ℕ → Entry → List ℕ × Entry × ℕ → Type 0
IsWrittenLevel p l f n (f', n', counted) =
    (b : List ℕ) × Written p l.list b
    × (f' ≡ f ++ b)
    × (n' ≡ record n { children_ofs = length f; children_n = length l.list })

pub write_level_lem :
    (p : Platform) (l : Level) (f : List ℕ) (n : Entry)
    → IfOk (IsWrittenLevel p l f n) (write_level p l f n)
unfolding write_level IsWrittenLevel
write_level_lem p l f n =
    IfOk-bind (Written p l.list) (IsWrittenLevel p l f n) (write_entries p l.list) _
      (write_entries_lem p l.list) (λ b w. (b, w, refl, refl))

-- The levels once the current one has got the entry of the level that was left.
unfoldable pub absorb : Option (Entry × ℕ) → List Level → List Level
absorb closed [] = []
absorb closed (l ∷ levels) = receive closed l ∷ levels

ename-receive : (closed : Option (Entry × ℕ)) (l : Level) → (receive closed l).ename ≡ l.ename
unfolding receive
ename-receive none l = refl
ename-receive (some c) l = refl

pub is_under-eq : (ename d : Directory) → is_under ename d ≡ true → d ≡ take (length d) ename
unfolding is_under
is_under-eq ename d h = sym ((list_eq-Decides bytes_eq bytes_eq-Decides).1 _ _ h)

module _ (p : Platform) (meta_ofs : ℕ) (tmax : Option ℤ) where
  -- The files and levels that list more, what is new as `new`, in the directories `ds`.
  unfoldable pub Grown : List Entry → List Entry → List Directory → List ℕ × List Level → Type 0
  Grown out new ds (f, levels) =
      (more : List Entry) × Lists p f levels (out ++ more)
      × (map plain more ≡ new)
      × (directories levels ≡ ds)

  -- What `close_levels` does with the level that it has.
  abbrev close_from : Directory → List ℕ → Level → List Level → Result (List ℕ × List Level)
  close_from ename f level parents =
      if is_under ename level.ename then ok (f, level ∷ parents) else do
        (f', n, counted) ← write_level p level f (blank_directory level.ename meta_ofs tmax)
        close_levels p meta_ofs tmax ename f' (some (n, counted)) parents

  Grown-after :
      (c d : Entry) (out new : List Entry) (ds : List Directory)
      → plain c ≡ d
      → (x : List ℕ × List Level) → Grown (out ++ c ∷ []) new ds x
      → Grown out (d ∷ new) ds x
  unfolding Grown
  Grown-after c d out new ds e (f, levels) (more, h, n, o) =
      (c ∷ more, rw (← append_assoc out (c ∷ []) more) h, rw (e, n) refl, o)

  -- That the levels from here on are closed as they should be.
  unfoldable pub Closes : Directory → List Level → Type 0
  Closes ename levels =
      (f : List ℕ) (closed : Option (Entry × ℕ)) (out : List Entry)
      → Lists p f (absorb closed levels) out
      → IfOk
          (Grown out (blanks meta_ofs tmax ename (directories levels))
            (kept ename (directories levels)))
          (close_levels p meta_ofs tmax ename f closed levels)

  left_lem :
      (ename : Directory) (f : List ℕ) (level : Level) (above : List Level) (out : List Entry)
      → Closes ename above
      → Lists p f (level ∷ above) out
      → IfOk
          (Grown out
            (listed level.ename (blank_directory level.ename meta_ofs tmax)
              ∷ blanks meta_ofs tmax ename (directories above))
            (kept ename (directories above)))
          (do
            (f', n, counted) ← write_level p level f (blank_directory level.ename meta_ofs tmax)
            close_levels p meta_ofs tmax ename f' (some (n, counted)) above)
  unfolding close_levels absorb Grown IsWrittenLevel blank_directory blank_new_entry Closes
      replicate
  left_lem ename f level [] out ih h =
      let blank = blank_directory level.ename meta_ofs tmax in
      IfOk-bind (IsWrittenLevel p level f blank) _ (write_level p level f blank) _
        (write_level_lem p level f blank) (λ x w. tt)
  left_lem ename f level (parent ∷ above) out ih h =
      let blank = blank_directory level.ename meta_ofs tmax in
      IfOk-bind (IsWrittenLevel p level f blank) _ (write_level p level f blank) _
        (write_level_lem p level f blank)
        (λ (f', n, counted) (b, w, fe, ne).
          let grown : Lists p f' (receive (some (n, counted)) parent ∷ above)
              (out ++ as_read (joined level.ename) n ∷ []) =
            rw (fe, ne)
              (Lists-leave p f b level parent above out
                (record blank { children_ofs = length f; children_n = length level.list }) counted h
                w refl refl refl refl) in
          let further =
            ih f' (some (n, counted)) (out ++ as_read (joined level.ename) n ∷ []) grown in
          IfOk-map _ _ (close_levels p meta_ofs tmax ename f' (some (n, counted)) (parent ∷ above))
            further (Grown-after (as_read (joined level.ename) n) _ out _ _ (rw ne refl)))

  close_from_lem :
      (ename : Directory) (f : List ℕ) (level : Level) (above : List Level) (out : List Entry)
      → Closes ename above
      → Lists p f (level ∷ above) out
      → IfOk
          (Grown out
            (blanks meta_ofs tmax ename (level.ename ∷ directories above))
            (kept ename (level.ename ∷ directories above)))
          (close_from ename f level above)
  unfolding blanks kept Grown
  close_from_lem ename f level above out ih h = elim (Bool-cases (is_under ename level.ename)) [
    | inl under ↦
        rw (under, sym (is_under-is_below ename level.ename) ∙ under)
          ([], rw (append-nil out) h, refl, refl)
    | inr apart ↦
        rw (apart, sym (is_under-is_below ename level.ename) ∙ apart)
          (left_lem ename f level above out ih h)
  ]

  pub close_lem : (ename : Directory) (levels : List Level) → Closes ename levels
  unfolding close_levels absorb Closes
  close_lem ename [] f closed out h = tt
  close_lem ename (l ∷ above) f closed out h =
      subst
        (λ (d : Directory).
          IfOk
            (Grown out (blanks meta_ofs tmax ename (d ∷ directories above))
              (kept ename (d ∷ directories above)))
            (close_from ename f (receive closed l) above))
        (ename-receive closed l)
        (close_from_lem ename f (receive closed l) above out (close_lem ename above) h)
