-- ===== src/Session/Reach.antt =====
-- No sequence of calls panics, and each keeps the registry's invariant.
use inotify_tools.Prelude.{
  ℕ, ◌+◌, ◌≤◌, ◌<◌, ◌≡◌, refl, Bytes, true, false, Option, none, some, List, [], ◌∷◌, arith,
  Option-cases, Bool-cases, inl, inr, is_some, ◌⊎◌, Bool,
}
use inotify_tools.Prelude.Ord.{nat_ord, bytes_ord}
use inotify_tools.Prelude.Word.{u64_mod, is_neg}
use inotify_tools.BTreeMap.{get, values}
use inotify_tools.Fid.Fields.{key_ord}
use inotify_tools.Handle.{Inotifytools, Watch, new}
use inotify_tools.Kernel.{Kernel}
use inotify_tools.Registry.{
  watch, unregister, rename_watch, set_filename_by_wd, set_filename_by_filename, rename,
}
use inotify_tools.Registry.Invariant.{Inv, new-Inv, unregister-Inv, rename-Inv}
use inotify_tools.Registry.Replace.{replace_filename-Inv}
use inotify_tools.Removal.{
  init, open_queue, cleanup, remove_watch, remove_watch_by_wd, remove_watch_by_filename,
}
use inotify_tools.Counters.{record_stats, initialize_stats}
use inotify_tools.Setup.Keeps.{watch_files-Grows}
use inotify_tools.Session.{
  Call, opens, cleans_up, creates, removes_wd, removes_name, renames_wd, renames_name, replaces,
  counts, resets, watches, cost, costs, step, run,
}
use inotify_tools.Session.Keeps.{
  Inv-of_same, record_stats-Inv, initialize_stats-Inv, reset_each-next_id, cleanup-Inv,
  unindexed-Inv, create_watch-Inv, replace_filename-next_id,
}

module _ {W : Type 0} (k : Kernel W) where
  -- `init` leaves the watches, and leaves the indexes or empties them
  pub init_cases :
      (l : Inotifytools) (fanotify watch_filesystem : Bool) (verbose : ℕ) (s : W)
      → let l' = (init k l fanotify watch_filesystem verbose s).1 in
        (l'.watches ≡ l.watches)
        × (l'.next_id ≡ l.next_id)
        × (((l'.by_wd ≡ l.by_wd) × (l'.by_fid ≡ l.by_fid) × (l'.by_filename ≡ l.by_filename))
            ⊎ ((l'.by_wd ≡ []) × (l'.by_fid ≡ []) × (l'.by_filename ≡ [])))
  unfolding init open_queue
  init_cases l true watch_filesystem verbose s = ground arith
  init_cases l false watch_filesystem verbose s = ground arith

  pub init-Inv :
      (l : Inotifytools) (fanotify watch_filesystem : Bool) (verbose : ℕ) (s : W)
      → Inv l
      → Inv (init k l fanotify watch_filesystem verbose s).1
  init-Inv l fanotify watch_filesystem verbose s v =
      let (ws, next, indexes) = init_cases l fanotify watch_filesystem verbose s in
      elim indexes [
        | inl (wds, fids, names) ↦ Inv-of_same l _ wds fids names ws next v
        | inr (wds, fids, names) ↦ unindexed-Inv l _ wds fids names ws next v
      ]

  remove_watch-Inv :
      (l : Inotifytools) (o : Option ℕ) (s : W)
      → Inv l
      → ((id : ℕ) → o ≡ some id → (w : Watch) × (get id l.watches ≡ some w))
      → (b : Bool) × (l' : Inotifytools) × (s' : W) × (remove_watch k l o s ≡ some (b, l', s'))
        × Inv l'
        × (l'.next_id ≡ l.next_id)
  unfolding remove_watch
  remove_watch-Inv l none s v live = (true, l, s, refl, v, refl)
  remove_watch-Inv l (some id) s v live =
      let (w, e) = live id refl in
      let status = (k.inotify_rm_watch l.fd w.wd s).0 in
      let s' = (k.inotify_rm_watch l.fd w.wd s).1 in
      elim (Bool-cases (is_some w.fid)) [
        | inl f ↦ (
          false,
          record l { error = 0 },
          s,
          ground (arith, e, f),
          Inv-of_same l _ refl refl refl refl refl v,
          refl,
        )
        | inr f ↦ elim (Bool-cases (is_neg status)) [
          | inl n ↦ (
            false,
            record l { error = status },
            s',
            ground (arith, e, f, n),
            Inv-of_same l _ refl refl refl refl refl v,
            refl,
          )
          | inr n ↦ (
            true,
            unregister (record l { error = 0 }) id w,
            s',
            ground (arith, e, f, n),
            unregister-Inv (record l { error = 0 }) id w e
                (Inv-of_same l _ refl refl refl refl refl v),
            unfold unregister in refl,
          )
        ]
      ]

  set_filename-Inv :
      (l : Inotifytools) (id : ℕ) (w : Watch) (name : Bytes)
      → Inv l
      → get id l.watches ≡ some w
      → (l' : Inotifytools) × (rename_watch l id name ≡ some l') × Inv l' × (l'.next_id ≡ l.next_id)
  unfolding rename_watch watch
  set_filename-Inv l id w name v e =
      (rename l id w name, rw e, rename-Inv l id w name e v, unfold rename in refl)

  -- What a step gives from a registry that satisfies the invariant.
  abbrev Steps : Inotifytools → W → Call → Type 0
  Steps l s c =
      (l' : Inotifytools) × (s' : W) × (step k l s c ≡ some (l', s'))
      × Inv l'
      × (l'.next_id ≤ l.next_id + cost c)

  live_wd :
      (l : Inotifytools) (wd id : ℕ)
      → Inv l
      → get wd l.by_wd ≡ some id
      → (w : Watch) × (get id l.watches ≡ some w)
  live_wd l wd id v h = elim (Option-cases (get id l.watches)) [
    | inl e ↦ absurd (ground (arith, e, v.wd_index wd id h))
    | inr found ↦ found
  ]

  live_name :
      (l : Inotifytools) (name : Bytes) (id : ℕ)
      → Inv l
      → get name l.by_filename ≡ some id
      → (w : Watch) × (get id l.watches ≡ some w)
  live_name l name id v h = elim (Option-cases (get id l.watches)) [
    | inl e ↦ absurd (ground (arith, e, v.name_index name id h))
    | inr found ↦ found
  ]

  pub step_total :
      (l : Inotifytools) (s : W) (c : Call) → l.next_id + cost c < u64_mod → Inv l → Steps l s c
  unfolding step remove_watch_by_wd remove_watch_by_filename set_filename_by_wd
      set_filename_by_filename
  step_total l s (opens fanotify watch_filesystem verbose) room v = (
    _,
    _,
    refl,
    init-Inv l fanotify watch_filesystem verbose s v,
    omega (arith, (init_cases l fanotify watch_filesystem verbose s).1),
  )
  step_total l s cleans_up room v = (_, _, refl, cleanup-Inv l v, unfold cleanup in ground arith)
  step_total l s (creates wd fid filename dirf) room v =
      let (v', n) = create_watch-Inv l wd fid filename dirf room v in (_, _, refl, v', n)
  step_total l s (removes_wd wd) room v =
      let (b, l', s', e, v', n) =
        remove_watch-Inv l (get wd l.by_wd) s v (λ id h. live_wd l wd id v h) in
      (l', s', rw e, v', omega arith)
  step_total l s (removes_name name) room v =
      let (b, l', s', e, v', n) =
        remove_watch-Inv l (get name l.by_filename) s v (λ id h. live_name l name id v h) in
      (l', s', rw e, v', omega arith)
  step_total l s (renames_wd wd name) room v = elim (Option-cases (get wd l.by_wd)) [
    | inl e ↦ (l, s, ground (arith, e), v, omega arith)
    | inr (id, e) ↦
        let (w, h) = live_wd l wd id v e in
        let (l', r, v', n) = set_filename-Inv l id w name v h in
        (l', s, ground (arith, e, r), v', omega arith)
  ]
  step_total l s (renames_name old name) room v = elim (Option-cases (get old l.by_filename)) [
    | inl e ↦ (l, s, ground (arith, e), v, omega arith)
    | inr (id, e) ↦
        let (w, h) = live_name l old id v e in
        let (l', r, v', n) = set_filename-Inv l id w name v h in
        (l', s, ground (arith, e, r), v', omega arith)
  ]
  step_total l s (replaces old name) room v = (
    _,
    _,
    refl,
    replace_filename-Inv l old name v,
    omega (arith, replace_filename-next_id l old name),
  )
  step_total l s (counts wd mask) room v =
      (_, _, refl, record_stats-Inv l wd mask v, unfold record_stats in ground arith)
  step_total l s resets room v = (
    _,
    _,
    refl,
    initialize_stats-Inv l v,
    unfold initialize_stats in ground (arith, reset_each-next_id (values l.by_wd) l),
  )
  step_total l s (watches filenames events) room v =
      let (v', n) = watch_files-Grows k filenames l events s (omega arith) v in
      (_, _, refl, v', omega arith)

  run_total :
      (cs : List Call) (l : Inotifytools) (s : W)
      → l.next_id + costs cs < u64_mod
      → Inv l
      → (l' : Inotifytools) × (s' : W) × (run k l s cs ≡ some (l', s')) × Inv l'
  unfolding run
  run_total [] l s room v = (l, s, refl, v)
  run_total (c ∷ cs) l s room v =
      let (l', s', e, v', n) = step_total l s c (omega arith) v in
      let (l'', s'', e', v'') = run_total cs l' s' (omega arith) v' in (l'', s'', rw e e', v'')

  -- Whatever the system answers, no sequence of calls on a new handle makes the library index its
  -- watches by an id that is missing (which would panic), and after it every entry of an index
  -- leads to a live watch that has the entry's key, as long as the calls may
  -- give out fewer than 2^64 - 1 ids: one for each call, and two for each path that is set up.
  pub run-new_total :
      (cs : List Call) (s : W)
      → costs cs + 1 < u64_mod
      → (l' : Inotifytools) × (s' : W) × (run k new s cs ≡ some (l', s')) × Inv l'
  run-new_total cs s room = run_total cs new s (unfold new in omega arith) new-Inv
