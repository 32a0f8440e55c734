-- ===== src/Names/Total.antt =====
-- Where the names of watches and events can be computed.
use inotify_tools.Prelude.{ℕ, ◌≡◌, Bytes, true, none, some, arith, Option-cases, inl, inr, is_some}
use inotify_tools.Prelude.Ord.{nat_ord, bytes_ord}
use inotify_tools.BTreeMap.{get}
use inotify_tools.Fid.{fsid_key, fid_key}
use inotify_tools.Handle.{Inotifytools, Watch}
use inotify_tools.Kernel.{Kernel}
use inotify_tools.Registry.{watch, watch_from_wd, watch_from_fid}
use inotify_tools.Registry.Invariant.{Inv}
use inotify_tools.Names.{
  mount_of, directory_of, fid_name_len, dir_key, aligned_handle, dir_descriptor, filename_from_fid,
  filename_from_watch_id, filename_from_wd, at_fdcwd,
}

-- the watches that the indexes lead to
pub live_wd :
    (l : Inotifytools) (wd id : ℕ)
    → Inv l
    → watch_from_wd l wd ≡ some id
    → (w : Watch) × (watch l id ≡ some w)
unfolding watch_from_wd watch
live_wd l wd id v h = elim (Option-cases (get id l.watches)) [
  | inl e ↦ absurd (ground (arith, e, v.wd_index wd id h))
  | inr (w, e) ↦ (w, e)
]

live_fid :
    (l : Inotifytools) (f : Bytes) (id : ℕ)
    → Inv l
    → watch_from_fid l f ≡ some id
    → (w : Watch) × (watch l id ≡ some w)
unfolding watch_from_fid watch
live_fid l f id v h = elim (Option-cases (get id l.watches)) [
  | inl e ↦ absurd (ground (arith, e, v.fid_index (fid_key f) id h))
  | inr (w, e) ↦ (w, e)
]

mount_of_total : (l : Inotifytools) (f : Bytes) → Inv l → (d : ℕ) × (mount_of l f ≡ some d)
unfolding mount_of
mount_of_total l f v = elim (Option-cases (watch_from_fid l (fsid_key f))) [
  | inl e ↦ (at_fdcwd, ground (arith, e))
  | inr (id, e) ↦ let (w, h) = live_fid l (fsid_key f) id v e in (w.dirf, ground (arith, e, h))
]

module _ {W : Type 0} (k : Kernel W) (l : Inotifytools) (v : Inv l) where
  directory_of_total : (f : Bytes) (s : W) → is_some (directory_of k l f s) ≡ true
  unfolding directory_of
  directory_of_total f s = elim (Option-cases (watch_from_fid l (dir_key f (fid_name_len f)))) [
    | inl e ↦ ground (arith, e)
    | inr (id, e) ↦
        let (w, h) = live_fid l (dir_key f (fid_name_len f)) id v e in ground (arith, e, h)
  ]

  dir_descriptor_total : (f : Bytes) (s : W) → is_some (dir_descriptor k l f s) ≡ true
  unfolding dir_descriptor
  dir_descriptor_total f s =
      let (d, e) = mount_of_total l f v in
      ground (arith, e, directory_of_total f (k.open_by_handle_at d (aligned_handle f) s).1)

  filename_from_fid_total : (f : Bytes) (s : W) → is_some (filename_from_fid k l f s) ≡ true
  unfolding filename_from_fid
  filename_from_fid_total f s = elim (Option-cases (dir_descriptor k l f s)) [
    | inl e ↦ absurd (ground (arith, e, dir_descriptor_total f s))
    | inr ((none, s'), e) ↦ ground (arith, e)
    | inr ((some d, s'), e) ↦ ground (arith, e)
  ]

  pub filename_from_watch_id_total :
      (id : ℕ) (w : Watch) (s : W)
      → watch l id ≡ some w
      → is_some (filename_from_watch_id k l id s) ≡ true
  unfolding filename_from_watch_id
  filename_from_watch_id_total id w s h = elim (Option-cases w.fid) [
    | inl e ↦ ground (arith, h, e)
    | inr (f, e) ↦ elim (Option-cases (filename_from_fid k l f s)) [
      | inl g ↦ absurd (ground (arith, g, filename_from_fid_total f s))
      | inr ((name, s'), g) ↦ ground (arith, h, e, g)
    ]
  ]

  filename_from_wd-is_some : (wd : ℕ) (s : W) → is_some (filename_from_wd k l wd s) ≡ true
  unfolding filename_from_wd
  filename_from_wd-is_some wd s = elim (Option-cases (watch_from_wd l wd)) [
    | inl e ↦ ground (arith, e)
    | inr (id, e) ↦
        let (w, h) = live_wd l wd id v e in ground (arith, e, filename_from_watch_id_total id w s h)
  ]

  pub filename_from_wd_total :
      (wd : ℕ) (s : W) → (name : Bytes) × (s' : W) × (filename_from_wd k l wd s ≡ some (name, s'))
  filename_from_wd_total wd s = elim (Option-cases (filename_from_wd k l wd s)) [
    | inl e ↦ absurd (ground (arith, e, filename_from_wd-is_some wd s))
    | inr ((name, s'), e) ↦ (name, s', e)
  ]
