-- ===== src/Registry/Invariant.antt =====
-- The invariant of the registry: every entry of an index leads to a live watch that has the
-- entry's key, and ids are fresh.
use inotify_tools.Prelude.{
  ℕ, ◌+◌, ◌<◌, ◌≡◌, Bytes, true, Option, none, some, arith, if◌then◌else◌, until_nul, Option-cases,
  ◌⊎◌, ◌≢◌, inl, inr,
}
use inotify_tools.Prelude.Ord.{nat_ord, bytes_ord}
use inotify_tools.Prelude.Word.{u64_mod}
use inotify_tools.BTreeMap.{
  BTreeMap, get, remove, modify, get-insert, get-or_insert, get-remove, get-modify, same,
  eq_of_same, same_refl,
}
use inotify_tools.BTreeMap.Once.{Once, or_insert-Once, insert_fresh-Once, remove-Once, modify-Once}
use inotify_tools.Fid.{FidKey, fid_key}
use inotify_tools.Fid.Fields.{key_ord}
use inotify_tools.Handle.{Inotifytools, Watch, new}
use inotify_tools.Registry.{
  key_of, fid_vacant, index_fid, unindex_fid, register, unregister, rename,
}

-- the keys of the watch with an id, if there is one
abbrev pub wd_of : Inotifytools → ℕ → Option ℕ
wd_of l id = elim (get id l.watches) [ none ↦ none | some w ↦ some w.wd ]

abbrev pub fid_of : Inotifytools → ℕ → Option FidKey
fid_of l id = elim (get id l.watches) [ none ↦ none | some w ↦ key_of w.fid ]

abbrev pub filename_of : Inotifytools → ℕ → Option Bytes
filename_of l id = elim (get id l.watches) [ none ↦ none | some w ↦ some w.filename ]

pub record Inv (l : Inotifytools) : Type 0 where
  pub wd_index : (k id : ℕ) → get k l.by_wd ≡ some id → wd_of l id ≡ some k
  pub fid_index : (k : FidKey) (id : ℕ) → get k l.by_fid ≡ some id → fid_of l id ≡ some k
  pub name_index : (k : Bytes) (id : ℕ) → get k l.by_filename ≡ some id → filename_of l id ≡ some k
  pub fresh : (id : ℕ) (w : Watch) → get id l.watches ≡ some w → id < l.next_id
  pub wds_once : Once l.by_wd
  pub names_once : Once l.by_filename
  pub watches_once : Once l.watches

pub new-Inv : Inv new
unfolding new get
new-Inv = record {
  wd_index = λ k id h. ground arith;
  fid_index = λ k id h. ground arith;
  name_index = λ k id h. ground arith;
  fresh = λ id w h. ground arith;
  wds_once = tt;
  names_once = tt;
  watches_once = tt;
}

pub fresh_none : (l : Inotifytools) → Inv l → get l.next_id l.watches ≡ none
fresh_none l v = elim (Option-cases (get l.next_id l.watches)) [
  | inl e ↦ e
  | inr (w, e) ↦ absurd (omega (arith, v.fresh l.next_id w e))
]

-- What an entry of the index by fid says, after an insertion and after a removal.
index_fid_entry :
    (o : Option Bytes) (k : FidKey) (new_id id : ℕ) (m : BTreeMap FidKey ℕ)
    → get k (index_fid o new_id m) ≡ some id
    → (get k m ≡ some id) ⊎ ((id ≡ new_id) × (fid_vacant o m ≡ true) × (key_of o ≡ some k))
unfolding index_fid fid_vacant
index_fid_entry none k new_id id m h = inl h
index_fid_entry (some f) k new_id id m h =
    ground (arith, get-or_insert (fid_key f) k new_id m, eq_of_same k (fid_key f))

unindex_fid_entry :
    (o : Option Bytes) (k : FidKey) (id : ℕ) (m : BTreeMap FidKey ℕ)
    → get k (unindex_fid o m) ≡ some id
    → (get k m ≡ some id) × (key_of o ≢ some k)
unfolding unindex_fid
unindex_fid_entry none k id m h = (h, λ e. cc)
unindex_fid_entry (some f) k id m h =
    ground (arith, get-remove (fid_key f) k m, same_refl (fid_key f))

pub register-Inv :
    (l : Inotifytools) (w : Watch) → l.next_id + 1 < u64_mod → Inv l → Inv (register l w)
unfolding register index_fid fid_vacant
register-Inv l w room v = record {
  wd_index = λ k id h. ground (
    arith,
    fresh_none l v,
    v.wd_index k id,
    get-or_insert w.wd k l.next_id l.by_wd,
    get-insert l.next_id id w l.watches,
  );
  fid_index = λ k id h. ground (
    arith,
    fresh_none l v,
    v.fid_index k id,
    index_fid_entry w.fid k l.next_id id l.by_fid h,
    get-insert l.next_id id w l.watches,
  );
  name_index = λ k id h. ground (
    arith,
    fresh_none l v,
    v.name_index k id,
    eq_of_same k w.filename,
    get-or_insert w.filename k l.next_id l.by_filename,
    get-insert l.next_id id w l.watches,
  );
  fresh = λ id w' h. ground (arith, v.fresh id w', get-insert l.next_id id w l.watches);
  wds_once = or_insert-Once w.wd l.next_id l.by_wd v.wds_once;
  names_once = or_insert-Once w.filename l.next_id l.by_filename v.names_once;
  watches_once = ground (
    arith,
    v.watches_once,
    insert_fresh-Once l.next_id w l.watches (fresh_none l v) v.watches_once,
  );
}

pub unregister-Inv :
    (l : Inotifytools) (id : ℕ) (w : Watch)
    → get id l.watches ≡ some w
    → Inv l
    → Inv (unregister l id w)
unfolding unregister
unregister-Inv l id w e v = record {
  wd_index =
      λ k j h. ground (arith, v.wd_index k j, get-remove w.wd k l.by_wd, get-remove id j l.watches);
  fid_index = λ k j h.
      ground
        (arith, v.fid_index k j, unindex_fid_entry w.fid k j l.by_fid h, get-remove id j l.watches);
  name_index = λ k j h. ground (
    arith,
    v.name_index k j,
    get-remove w.filename k l.by_filename,
    get-remove id j l.watches,
    same_refl w.filename,
  );
  fresh = λ j w' h. ground (arith, v.fresh j w', get-remove id j l.watches);
  wds_once = remove-Once w.wd l.by_wd v.wds_once;
  names_once = remove-Once w.filename l.by_filename v.names_once;
  watches_once = remove-Once id l.watches v.watches_once;
}

pub rename-Inv :
    (l : Inotifytools) (id : ℕ) (w : Watch) (newname : Bytes)
    → get id l.watches ≡ some w
    → Inv l
    → Inv (rename l id w newname)
unfolding rename
rename-Inv l id w newname e v = record {
  wd_index = λ k j h. ground (arith, v.wd_index k j, named j);
  fid_index = λ k j h. ground (arith, v.fid_index k j, named j);
  name_index = λ k j h. ground (
    arith,
    v.name_index k j,
    v.name_index w.filename j,
    v.name_index (until_nul newname) j,
    eq_of_same k w.filename,
    eq_of_same k (until_nul newname),
    same_refl w.filename,
    named j,
    get-or_insert (until_nul newname) k id (remove w.filename l.by_filename),
    get-or_insert (until_nul newname) k id l.by_filename,
    get-remove w.filename k l.by_filename,
    get-remove w.filename (until_nul newname) l.by_filename,
  );
  fresh = λ j w' h. ground (arith, v.fresh j w', v.fresh id w, named j);
  wds_once = v.wds_once;
  names_once = ground (
    arith,
    v.names_once,
    or_insert-Once (until_nul newname) id l.by_filename v.names_once,
    or_insert-Once (until_nul newname) id (remove w.filename l.by_filename)
        (remove-Once w.filename l.by_filename v.names_once),
  );
  watches_once = modify-Once id _ l.watches v.watches_once;
}
  where
    named :
        (j : ℕ)
        → get j (modify id (λ (w : Watch). record w { filename = until_nul newname }) l.watches) ≡ (
            if same j id
            then (elim (get j l.watches) [
              | none ↦ none
              | some w ↦ some (record w { filename = until_nul newname })
            ])
            else get j l.watches)
    named j = get-modify id j _ l.watches
