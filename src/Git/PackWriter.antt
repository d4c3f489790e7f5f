-- ===== src/Git/PackWriter.antt =====
-- `LocalPackStore`, `PackIdxV2Writer` and `PackWriter` of lib/bup/git.py. The disk is its packs by the
-- name without suffix. `pack_id` is the name that the sha1 of a pack file gives it, as a function of
-- the objects in it, `crc32` is zlib's, and `encode` is `_encode_packobj`. Failing writes, and
-- `auto_midx`, which runs another bup, are left out.
use bup.Base.{
  ℕ, ◌+◌, ◌^◌, Bool, true, false, ◌||◌, Option, none, some, List, [], ◌∷◌, ◌++◌, leb, ◌==◌,
  if◌then◌else◌, length,
}
use bup.Base.Dict.{Key, Dict, insert, contains}
use bup.Base.Lex.{bytes_lt}
use bup.Base.Error.{Result, ok, err, undefined, struct_error, assertion_error}

-- (sha, crc, offs)
pub record IdxEntry : Type 0 where
  pub oid : Key
  pub crc : ℕ
  pub offs : ℕ

pub record PackFile : Type 0 where
  pub blobs : List (List ℕ)
  pub idx : List IdxEntry

-- The callback changes the disk, and what its caller keeps.
pub record PackStore (User : Type 0) : Type 0 where
  pub closed : Bool
  pub file : Option (List (List ℕ))
  pub idx : List IdxEntry
  pub obj_count : ℕ
  pub disk : Dict PackFile
  pub user : User

pub record PackWriter (User : Type 0) : Type 0 where
  pub store : PackStore User
  pub byte_count : ℕ
  pub obj_count : ℕ
  pub pending_oids : List Key
  pub max_pack_size : ℕ
  pub max_pack_objects : ℕ

-- An operation that may raise returns what it raises and the state after it.
abbrev pub Outcome : Type 0 → Type 0 → Type 0
Outcome S A = Result A × S

-- `write_idx` sorts the entries by their oids; `idx` has them by their first bytes.
unfoldable pub insert_entry : IdxEntry → List IdxEntry → List IdxEntry
insert_entry e [] = e ∷ []
insert_entry e (f ∷ idx) =
    let further = insert_entry e idx in if bytes_lt f.oid e.oid then f ∷ further else e ∷ f ∷ idx

unfoldable pub write_idx : List IdxEntry → List IdxEntry
write_idx [] = []
write_idx (e ∷ idx) = insert_entry e (write_idx idx)

-- The bytes of the objects, behind the header of 12 bytes.
unfoldable pub bytes_in : List (List ℕ) → ℕ
bytes_in [] = 0
bytes_in (blob ∷ blobs) = length blob + bytes_in blobs

unfoldable pub opened : Option (List (List ℕ)) → List (List ℕ)
opened none = []
opened (some blobs) = blobs

module _ {User : Type 0} (crc32 : List ℕ → ℕ) (pack_id : List (List ℕ) → Key)
    (on_pack_finish : Key → Dict PackFile → User → Dict PackFile × User) where
  -- LocalPackStore.write, on the joined `datalist`
  unfoldable pub store_write : List ℕ → Key → PackStore User → PackStore User
  store_write oneblob sha s =
      let blobs = opened s.file in
      record s {
        file = some (blobs ++ oneblob ∷ []);
        idx = s.idx ++ (record { oid = sha; crc = crc32 oneblob; offs = 12 + bytes_in blobs }) ∷ [];
        obj_count = s.obj_count + 1;
      }

  -- The `finally` of finish_pack.
  unfoldable pub dropped : PackStore User → PackStore User
  dropped s = record s { file = none; idx = []; obj_count = 0 }

  -- The pack with its index under its final name, and the callback.
  unfoldable pub renamed : List (List ℕ) → PackStore User → PackStore User
  renamed blobs s =
      let disk = insert (pack_id blobs) (record { blobs = blobs; idx = write_idx s.idx }) s.disk in
      let (disk', user) = on_pack_finish (pack_id blobs) disk s.user in
      record s { disk = disk'; user = user }

  unfoldable pub finish_file :
      Option (List (List ℕ)) → PackStore User → Outcome (PackStore User) (Option Key)
  finish_file none s = (ok none, dropped s)
  finish_file (some blobs) s =
      if leb (2 ^ 31) s.obj_count
      then (err struct_error, dropped s)
      else (ok (some (pack_id blobs)), dropped (renamed blobs s))

  unfoldable pub finish_pack : Bool → PackStore User → Outcome (PackStore User) (Option Key)
  finish_pack abort s = if abort then (ok none, dropped s) else finish_file s.file s

  unfoldable pub store_abort : PackStore User → PackStore User
  store_abort s = (finish_pack true (record s { closed = true })).1

  unfoldable pub store_close : PackStore User → Outcome (PackStore User) (Option Key)
  store_close s = finish_pack false (record s { closed = true })

  unfoldable pub reset_counts :
      Outcome (PackStore User) (Option Key)
      → PackWriter User
      → Outcome (PackWriter User) (Option Key)
  reset_counts (ok result, s) w = (ok result, record w { store = s; byte_count = 0; obj_count = 0 })
  reset_counts (err e, s) w = (err e, record w { store = s })
  reset_counts (undefined, s) w = (undefined, record w { store = s })

  unfoldable pub breakpoint : PackWriter User → Outcome (PackWriter User) (Option Key)
  breakpoint w = reset_counts (finish_pack false w.store) w

  unfoldable pub then_sha :
      Key → Outcome (PackWriter User) (Option Key) → Outcome (PackWriter User) Key
  then_sha sha (ok result, w) = (ok sha, w)
  then_sha sha (err e, w) = (err e, w)
  then_sha sha (undefined, w) = (undefined, w)

  -- The writer with one object more.
  unfoldable pub counted : List ℕ → Key → PackWriter User → PackWriter User
  counted encoded sha w = record w {
    store = store_write encoded sha w.store;
    byte_count = w.byte_count + length encoded;
    obj_count = w.obj_count + 1;
  }

  unfoldable pub is_full : PackWriter User → Bool
  is_full w = leb w.max_pack_size w.byte_count || leb w.max_pack_objects w.obj_count

  -- `_write` of what `_encode_packobj` returned or raised
  unfoldable pub write_encoded :
      Key → Result (List ℕ) → PackWriter User → Outcome (PackWriter User) Key
  write_encoded sha (ok encoded) w =
      let w' = counted encoded sha w in
      if is_full w' then then_sha sha (breakpoint w') else (ok sha, w')
  write_encoded sha (err e) w = (err e, w)
  write_encoded sha undefined w = (undefined, w)

  -- `self._pending_oids.add(sha)`, unless the write raised
  unfoldable pub remember : Outcome (PackWriter User) Key → Outcome (PackWriter User) Key
  remember (ok sha, w) = (ok sha, record w { pending_oids = sha ∷ w.pending_oids })
  remember (err e, w) = (err e, w)
  remember (undefined, w) = (undefined, w)

  module _ (encode : Key → List ℕ → Result (List ℕ)) where
    unfoldable pub write : Key → Key → List ℕ → PackWriter User → Outcome (PackWriter User) Key
    write sha type content w =
        if length sha == 0
        then (err assertion_error, w)
        else write_encoded sha (encode type content) w

    unfoldable pub just_write : Key → Key → List ℕ → PackWriter User → Outcome (PackWriter User) Key
    just_write sha type content w = remember (write sha type content w)

    -- `stored` is the answer of the store's object cache.
    pub exists : Bool → Key → PackWriter User → Bool
    exists stored oid w = contains oid w.pending_oids || stored

    pub maybe_write :
        (Key → List ℕ → Key)
        → (Key → Bool)
        → Key
        → List ℕ
        → PackWriter User
        → Outcome (PackWriter User) Key
    maybe_write calc_hash stored type content w =
        let sha = calc_hash type content in
        if exists (stored sha) sha w then (ok sha, w) else just_write sha type content w

  unfoldable pub abort : PackWriter User → PackWriter User
  abort w = record w { store = store_abort w.store }

  unfoldable pub closing :
      Outcome (PackStore User) (Option Key)
      → PackWriter User
      → Outcome (PackWriter User) (Option Key)
  closing (result, s) w = (result, record w { store = s })

  unfoldable pub close : PackWriter User → Outcome (PackWriter User) (Option Key)
  close w = closing (store_close w.store) w
