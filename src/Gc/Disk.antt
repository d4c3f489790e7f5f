-- ===== src/Gc/Disk.antt =====
-- Packs on the disk: what is removed and what stays.
use bup.Base.{
  ◌≡◌, ◌⊎◌, inl, inr, refl, sym, ap, ◌∙◌, arith, true, false, ◌||◌, Option, some, List, [], ◌∷◌,
  ◌++◌, bytes_eq, bytes_eq→eq, Bool-cases,
}
use bup.Base.Dict.{Key, Dict, lookup, delete, contains, lookup-delete}
use bup.Git.PackWriter.{IdxEntry, PackFile, insert_entry, write_idx}
use bup.Gc.{oids, is_stem, remove_stems}

-- A pack other than those of a list has the object.
pub record OnDiskBut (bad : List Key) (disk : Dict PackFile) (sha : Key) : Type 0 where
  pub stem : Key
  pub pack : PackFile
  pub found : lookup stem disk ≡ some pack
  pub has : contains sha (oids pack.idx) ≡ true
  pub apart : contains stem bad ≡ false

abbrev pub OnDisk : Dict PackFile → Key → Type 0
OnDisk = OnDiskBut []

pub OnDiskBut-weaken :
    (bad : List Key) (disk : Dict PackFile) (sha : Key) → OnDiskBut bad disk sha → OnDisk disk sha
unfolding contains
OnDiskBut-weaken bad disk sha d = record {
  stem = d.stem;
  pack = d.pack;
  found = d.found;
  has = d.has;
  apart = refl;
}

-- What stays when stale packs are removed: those that are not stale, and the new one.
pub lookup-remove_stems :
    (prefix : Option Key) (stale : List Key) (disk : Dict PackFile) (stem : Key) (pack : PackFile)
    → lookup stem disk ≡ some pack
    → (contains stem stale ≡ false) ⊎ (is_stem prefix stem ≡ true)
    → lookup stem (remove_stems prefix stale disk) ≡ some pack
unfolding remove_stems contains
lookup-remove_stems prefix [] disk stem pack e h = e
lookup-remove_stems prefix (s ∷ stale) disk stem pack e h = elim (Bool-cases (is_stem prefix s)) [
  | inl skipped ↦ rw skipped (lookup-remove_stems prefix stale disk stem pack e (later h))
  | inr removed ↦
      rw removed
        (lookup-remove_stems prefix stale (delete s disk) stem pack (still removed h) (later h))
]
  where
    later :
        (bytes_eq s stem || contains stem stale ≡ false) ⊎ (is_stem prefix stem ≡ true)
        → (contains stem stale ≡ false) ⊎ (is_stem prefix stem ≡ true)
    later (inl c) = inl (ground (arith, c))
    later (inr i) = inr i

    clash :
        is_stem prefix s ≡ false
        → s ≡ stem
        → bytes_eq s stem ≡ true
        → (bytes_eq s stem || contains stem stale ≡ false) ⊎ (is_stem prefix stem ≡ true)
        → ⊥
    clash removed at_stem same (inl c) = ground (arith, c)
    clash removed at_stem same (inr i) = ground (arith, ap (is_stem prefix) at_stem)

    still :
        is_stem prefix s ≡ false
        → (bytes_eq s stem || contains stem stale ≡ false) ⊎ (is_stem prefix stem ≡ true)
        → lookup stem (delete s disk) ≡ some pack
    still removed h = elim (Bool-cases (bytes_eq s stem)) [
      | inr other ↦ rw (lookup-delete s stem disk, other) e
      | inl same ↦ absurd (clash removed (bytes_eq→eq s stem same) same h)
    ]

pub lookup_before-remove_stems :
    (prefix : Option Key) (stale : List Key) (disk : Dict PackFile) (stem : Key) (pack : PackFile)
    → lookup stem (remove_stems prefix stale disk) ≡ some pack
    → lookup stem disk ≡ some pack
unfolding remove_stems
lookup_before-remove_stems prefix [] disk stem pack e = e
lookup_before-remove_stems prefix (s ∷ stale) disk stem pack e =
    elim (Bool-cases (is_stem prefix s)) [
      | inl skipped ↦ lookup_before-remove_stems prefix stale disk stem pack (sym (rw skipped) ∙ e)
      | inr removed ↦
          let was : lookup stem (delete s disk) ≡ some pack =
            lookup_before-remove_stems prefix stale (delete s disk) stem pack (rw removed at e) in
          ground (arith, lookup-delete s stem disk, was)
    ]

pub oids-append : (xs ys : List IdxEntry) → oids (xs ++ ys) ≡ oids xs ++ oids ys
unfolding oids
oids-append [] ys = refl
oids-append (e ∷ xs) ys = ap (λ t. e.oid ∷ t) (oids-append xs ys)

contains-insert_entry :
    (sha : Key) (e : IdxEntry) (idx : List IdxEntry)
    → contains sha (oids (insert_entry e idx)) ≡ contains sha (oids (e ∷ idx))
unfolding contains oids insert_entry
contains-insert_entry sha e [] = refl
contains-insert_entry sha e (f ∷ idx) = ground (arith, contains-insert_entry sha e idx)

-- Sorting the index keeps its oids.
pub contains-write_idx :
    (sha : Key) (idx : List IdxEntry)
    → contains sha (oids (write_idx idx)) ≡ contains sha (oids idx)
unfolding contains oids write_idx
contains-write_idx sha [] = refl
contains-write_idx sha (e ∷ idx) =
    contains-insert_entry sha e (write_idx idx)
    ∙ ap (λ t. bytes_eq e.oid sha || t) (contains-write_idx sha idx)
