-- ===== src/Index/Total.antt =====
-- That the Writer of lib/bup/index.py raises nothing where its entries can be packed.
use bup.Base.{
  ℕ, zero, suc, ◌+◌, ◌-◌, ◌<◌, ◌≤◌, ◌^◌, ◌≡◌, refl, sym, ap, ◌∙◌, arith, true, Option, none, some,
  List, [], ◌∷◌, length, take, drop, length-take, Bool-cases, inl, inr, bytes_eq,
}
use bup.Base.Int.{ℤ}
use bup.Base.Error.{Returns, Returns-bind}
use bup.Metadata.Equality.{list_eq, bytes_eq-Decides, list_eq-Decides}
use bup.Index.{Entry, Platform, entlen}
use bup.Index.Writer.{
  Level, write_level, receive, last_name, is_under, blank_directory, blank_new_entry, close_levels,
  open_levels, leave_level, or_blank, put_entry, depth, golevel,
}
use bup.Index.Replay.{Directory, absorb, is_under-eq}
use bup.Index.Run.{length-take_le}
use bup.Index.Room.{
  IsStorable, LevelWritten, write_level-Returns, pending, units, sizes, HasRoot, AreStorable,
  HasRoom, HasRoom-leave,
}

take_whole : (ename : Directory) → take (length ename) ename ≡ ename
take_whole [] = refl
take_whole (x ∷ ename) = ap (λ (d : Directory). x ∷ d) (take_whole ename)

module _ (p : Platform) where
  -- The bytes of the entries of a name and of the directories on the way to it.
  unfoldable pub path_size : Directory → ℕ
  path_size [] = 0
  path_size (x ∷ ename) = length x + 1 + entlen p + path_size ename

  path_size-drop :
      (k : ℕ) (ename : Directory)
      → k < length ename
      → path_size (drop k ename)
        ≡ length (last_name (take (k + 1) ename)) + 1 + entlen p + path_size (drop (k + 1) ename)
  unfolding path_size last_name
  path_size-drop k [] h = absurd (omega arith)
  path_size-drop zero (x ∷ ename) h = refl
  path_size-drop (suc k) (x ∷ []) h = absurd (omega arith)
  path_size-drop (suc k) (x ∷ y ∷ ename) h =
      let next : suc k + 1 ≡ suc (k + 1) = omega arith in
      let one : k + 1 ≡ suc k = omega arith in
      let rest : path_size (drop k (y ∷ ename))
          ≡ length (last_name (take (suc k) (y ∷ ename)))
            + 1
            + entlen p
            + path_size (drop (suc k) (y ∷ ename)) =
        rw one at (path_size-drop k (y ∷ ename) (omega arith)) in
      rw (next, one) rest

  path_size-drop_le : (k : ℕ) (ename : Directory) → path_size (drop k ename) ≤ path_size ename
  unfolding path_size
  path_size-drop_le zero ename = omega arith
  path_size-drop_le (suc k) [] = omega arith
  path_size-drop_le (suc k) (x ∷ ename) = omega (arith, path_size-drop_le k ename)

  -- The current level has the name, or one above it.
  unfoldable pub IsOn : Directory → List Level → Type 0
  IsOn ename [] = Unit
  IsOn ename (l ∷ levels) = is_under ename l.ename ≡ true

  unfoldable pub ClosedTo : ℕ → ℕ → Directory → List ℕ × List Level → Type 0
  ClosedTo size number ename (f, levels) = HasRoom p size number f levels × IsOn ename levels

  unfoldable pub Left : ℕ → ℕ → List ℕ × Level × List Level → Type 0
  Left size number (f, left, levels) = HasRoom p size number f levels

  IsAt : Directory → List Level → Type 0
  IsAt ename [] = Unit
  IsAt ename (l ∷ levels) = l.ename ≡ ename

  module _ (meta_ofs : ℕ) (tmax : Option ℤ) (size number : ℕ) (small : size < 256 ^ 8)
      (few : number < 256 ^ 4) (blank : IsStorable p (blank_directory [] meta_ofs tmax)) where
    IsStorable-blank : (d : Directory) → IsStorable p (blank_directory d meta_ofs tmax)
    unfolding IsStorable blank_directory blank_new_entry
    IsStorable-blank d = blank

    pub close_levels-Returns :
        (ename : Directory) (f : List ℕ) (closed : Option (Entry × ℕ)) (levels : List Level)
        → HasRoom p size number f (absorb closed levels)
        → Returns (ClosedTo size number ename) (close_levels p meta_ofs tmax ename f closed levels)
    unfolding close_levels absorb ClosedTo IsOn HasRoom HasRoot AreStorable is_under blank_directory
        blank_new_entry
    close_levels-Returns ename f closed [] h = absurd h.0
    close_levels-Returns ename f closed (l ∷ []) h =
        let under : is_under ename ((receive closed l).ename) ≡ true = rw h.0 refl in
        rw under ((f, receive closed l ∷ []), refl, (h, under))
    close_levels-Returns ename f closed (l ∷ parent ∷ above) h =
        let level = receive closed l in
        let n = blank_directory level.ename meta_ofs tmax in
        elim (Bool-cases (is_under ename level.ename)) [
          | inl under ↦ rw under ((f, level ∷ parent ∷ above), refl, (h, under))
          | inr apart ↦ rw apart (
              Returns-bind (LevelWritten p level f n) (ClosedTo size number ename)
                (write_level p level f n) _ (write_level-Returns p level f n h.1.0)
                (λ (f', n', counted) w.
                  close_levels-Returns ename f' (some (n', counted)) (parent ∷ above) (
                    HasRoom-leave p size number f level parent above n f' n' counted small few h
                      (IsStorable-blank level.ename) refl w)))
        ]

  -- The levels down to a name.
  open_levels-HasRoom :
      (ename : Directory) (more : ℕ) (size number : ℕ) (f : List ℕ) (l : Level) (above : List Level)
      → length l.ename + more ≡ length ename
      → l.ename ≡ take (length l.ename) ename
      → HasRoom p size number f (l ∷ above)
      → HasRoom p
          (size + path_size (drop (length l.ename) ename))
          (number + more)
          f
          (open_levels more ename (l ∷ above))
        × IsAt ename (open_levels more ename (l ∷ above))
  unfolding open_levels HasRoom HasRoot AreStorable pending units sizes IsAt
  open_levels-HasRoom ename zero size number f l above k e (r, s, b, n) =
      let here : l.ename ≡ ename =
        e ∙ ap (λ k. take k ename) (omega (arith, k)) ∙ take_whole ename in
      ((r, s, omega arith, omega arith), here)
  open_levels-HasRoom ename (suc more) size number f l above k e (r, s, b, n) =
      let new : Level = record { ename = take (length l.ename + 1) ename; list = []; count = 0 } in
      let long : length new.ename ≡ length l.ename + 1 =
        length-take_le (length l.ename + 1) ename (omega arith) in
      let step = path_size-drop (length l.ename) ename (omega arith) in
      let (room, at) =
        open_levels-HasRoom ename more (size + (length (last_name new.ename) + 1 + entlen p))
          (number + 1) f new (l ∷ above) (omega arith) (rw long refl)
          (r, (tt, s), omega arith, omega arith) in
      let far : path_size (drop (length new.ename) ename)
          ≡ path_size (drop (length l.ename + 1) ename) =
        ap (λ k. path_size (drop k ename)) long in
      ((room.0, room.1, omega (arith, room.2, step, far), omega (arith, room.3)), at)

  -- `_golevel` for an entry.
  module _ (meta_ofs : ℕ) (tmax : Option ℤ) (size number : ℕ) (small : size < 256 ^ 8)
      (few : number < 256 ^ 4) where
    put_entry-Returns :
        (ename : Directory) (e : Entry) (f : List ℕ) (levels : List Level)
        → 1 ≤ length ename
        → e.basename ≡ last_name ename
        → IsStorable p e
        → HasRoom p size number f levels
        → IsAt ename levels
        → Returns (Left size number) (put_entry p meta_ofs tmax ename (some e) f levels)
    unfolding put_entry HasRoom HasRoot IsAt or_blank leave_level Left AreStorable
    put_entry-Returns ename e f [] k b good h at = absurd h.0
    put_entry-Returns ename e f (level ∷ []) k b good h at =
        absurd (omega (arith, k, ap length (sym at ∙ h.0)))
    put_entry-Returns ename e f (level ∷ parent ∷ above) k b good h at =
        let same : list_eq bytes_eq ename level.ename ≡ true =
          rw at ((list_eq-Decides bytes_eq bytes_eq-Decides).0 ename) in
        rw same (
          Returns-bind (LevelWritten p level f e) (Left size number) (write_level p level f e) _
            (write_level-Returns p level f e h.1.0)
            (λ (f', n', counted) w. (
              (f', level, receive (some (n', counted)) parent ∷ above),
              refl,
              HasRoom-leave p size number f level parent above e f' n' counted small few h good
                  (rw at b) w,
            )))

  pub golevel-Returns :
      (meta_ofs : ℕ) (tmax : Option ℤ) (size number : ℕ) (ename : Directory) (e : Entry)
      (f : List ℕ) (levels : List Level)
      → size + path_size ename < 256 ^ 8
      → number + length ename < 256 ^ 4
      → IsStorable p (blank_directory [] meta_ofs tmax)
      → 1 ≤ length ename
      → e.basename ≡ last_name ename
      → IsStorable p e
      → HasRoom p size number f levels
      → Returns
          (Left (size + path_size ename) (number + length ename))
          (golevel p meta_ofs tmax ename (some e) f levels)
  unfolding golevel HasRoom HasRoot absorb receive ClosedTo IsOn Left depth
  golevel-Returns meta_ofs tmax size number ename e f [] small few blank k b good h = absurd h.0
  golevel-Returns meta_ofs tmax size number ename e f (l ∷ above) small few blank k b good h =
      Returns-bind (ClosedTo size number ename)
        (Left (size + path_size ename) (number + length ename))
        (close_levels p meta_ofs tmax ename f none (l ∷ above)) _
        (close_levels-Returns meta_ofs tmax size number (omega arith) (omega arith) blank ename f
          none (l ∷ above) h)
        (λ (f', levels) (room, on). put f' levels room on)
    where
      put :
          (f' : List ℕ) (levels : List Level)
          → HasRoom p size number f' levels
          → IsOn ename levels
          → Returns (Left (size + path_size ename) (number + length ename)) (
              put_entry p meta_ofs tmax ename
                (some e)
                f'
                (open_levels (length ename - depth levels) ename levels))
      put f' [] room on = absurd room.0
      put f' (m ∷ levels) room on =
          let front = is_under-eq ename m.ename on in
          let short : length m.ename ≤ length ename =
            omega (arith, ap length front, length-take (length m.ename) ename) in
          let (opened, at) =
            open_levels-HasRoom ename (length ename - length m.ename) size number f' m levels
              (omega arith) front room in
          put_entry-Returns meta_ofs tmax (size + path_size ename) (number + length ename) small few
            ename e f' _ k b good
            (
              opened.0,
              opened.1,
              omega (arith, opened.2, path_size-drop_le (length m.ename) ename),
              omega (arith, opened.3),
            )
            at
