-- ===== src/Session/Closed.antt =====
-- What becomes of the directory descriptors over a sequence of calls.
use inotify_tools.Prelude.{
  ℕ, suc, ◌+◌, ◌*◌, ◌≤◌, ◌<◌, ◌≡◌, ◌∙◌, sym, refl, ap, Bytes, Bool, true, false, Option, none, some,
  List, [], ◌∷◌, arith, ◌==◌, Option-cases, Bool-cases, inl, inr, is_some, All, length, until_nul,
}
use mathlib.Core.Path.{subst}
use inotify_tools.Prelude.Ord.{nat_ord, bytes_ord}
use inotify_tools.Prelude.Word.{is_neg, u64_mod, minus_one}
use inotify_tools.BTreeMap.{get}
use inotify_tools.Fid.Fields.{key_ord}
use inotify_tools.Handle.{Inotifytools, ◌>>=◌}
use inotify_tools.Kernel.{Kernel}
use inotify_tools.Registry.{
  unregister, rename, rename_watch, set_filename_by_wd, set_filename_by_filename, watch_from_wd,
  watch_from_filename, watch, destroy_watch, replace_filename,
}
use inotify_tools.Registry.Invariant.{Inv}
use inotify_tools.Removal.{
  init, open_queue, cleanup, remove_watch, remove_watch_by_wd, remove_watch_by_filename,
}
use inotify_tools.Counters.{record_stats, initialize_stats}
use inotify_tools.Session.{
  Call, opens, cleans_up, creates, removes_wd, removes_name, renames_wd, renames_name, replaces,
  counts, resets, watches, cost, costs, step, run,
}
use inotify_tools.Session.Keeps.{Inv-of_same}
use inotify_tools.Session.Descriptors.{
  holding, times, balance, unregister-balance, cleanup-balance, create_watch-balance,
  rename-balance, replace_filename-balance, record_stats-balance, initialize_stats-balance,
}
use inotify_tools.Session.Reach.{step_total}
use inotify_tools.Setup.{add_kernel_watch, add_watch, watch_each, watch_files}
use inotify_tools.Setup.Created.{Created, as_before, one_more, add_watch-Created}
use inotify_tools.Setup.Keeps.{Created-Grows}

-- whether a call hands no descriptor to the handle and does not close its queue
abbrev pub is_neutral : Call → Bool
is_neutral cleans_up = false
is_neutral (creates wd fid filename dirf) = false
is_neutral (watches filenames events) = false
is_neutral _ = true

module _ {W : Type 0} (k : Kernel W) (d : ℕ) (real : 0 < d) where
  Created-balance :
      (n : ℕ) (l l' : Inotifytools)
      → Created n l l'
      → l.next_id + n < u64_mod
      → Inv l
      → balance d l ≤ balance d l'
  Created-balance n l l' (as_before e) room v =
      subst (λ x. balance d l ≤ balance d x) (sym e) (omega arith)
  Created-balance (suc n) l l'' (one_more {l' = l'} wd fid name dirf c e) room v =
      let (v', m) = Created-Grows n l l' c (omega arith) v in
      subst (λ x. balance d l ≤ balance d x) (sym e)
        (omega (
          arith,
          Created-balance n l l' c (omega arith) v,
          create_watch-balance d real l' wd fid name dirf v',
        ))

  watch_each-balance :
      (filenames : List Bytes) (l : Inotifytools) (events : ℕ) (s : W)
      → l.next_id + 2 * length filenames < u64_mod
      → Inv l
      → balance d l ≤ balance d (watch_each k l filenames events s).1
  unfolding watch_each
  watch_each-balance [] l events s room v = omega arith
  watch_each-balance (filename ∷ filenames) l events s room v =
      let fname = until_nul filename in
      let (wd, events', s') = add_kernel_watch k l fname events s in
      let c = add_watch-Created k l fname wd s' in
      let (v', n) = Created-Grows 2 l _ c (omega arith) v in
      let first = Created-balance 2 l _ c (omega arith) v in
      elim (Bool-cases (is_neg wd)) [
        | inl e ↦ elim (Bool-cases (wd == minus_one)) [
          | inl m ↦ rw (e, m) (omega arith)
          | inr m ↦ rw (e, m) (omega arith)
        ]
        | inr e ↦ elim (Bool-cases (add_watch k l fname wd s').0) [
          | inr b ↦ rw (e, b) first
          | inl b ↦
              let rest =
                watch_each-balance filenames (add_watch k l fname wd s').1 events'
                  (add_watch k l fname wd s').2 (omega arith) v' in
              rw (e, b) (omega (arith, first, rest))
        ]
      ]

  init-balance :
      (l : Inotifytools) (fanotify watch_filesystem : Bool) (verbose : ℕ) (s : W)
      → balance d (init k l fanotify watch_filesystem verbose s).1 ≡ balance d l
  unfolding init open_queue
  init-balance l true watch_filesystem verbose s = ground arith
  init-balance l false watch_filesystem verbose s = ground arith

  -- the handle behind a removal
  abbrev behind_removal : Inotifytools → Option (Bool × Inotifytools × W) → Inotifytools
  behind_removal l none = l
  behind_removal l (some (b, l', s)) = l'

  remove_watch-balance :
      (l : Inotifytools) (o : Option ℕ) (s : W)
      → Inv l
      → balance d (behind_removal l (remove_watch k l o s)) ≡ balance d l
  unfolding remove_watch watch
  remove_watch-balance l none s v = refl
  remove_watch-balance l (some id) s v = elim (Option-cases (get id l.watches)) [
    | inl e ↦ ground (arith, e)
    | inr (w, e) ↦
        let status = (k.inotify_rm_watch l.fd w.wd s).0 in
        let gone =
          unregister-balance d real (record l { error = 0 }) id w
            (Inv-of_same l _ refl refl refl refl refl v) e in
        let out : destroy_watch (record l { error = 0 }) id
            ≡ some (unregister (record l { error = 0 }) id w) =
          unfold destroy_watch in rw e refl in
        elim (Bool-cases (is_some w.fid)) [
          | inl f ↦ rw (remove_watch, e, f) refl
          | inr f ↦ elim (Bool-cases (is_neg status)) [
            | inl n ↦ rw (remove_watch, e, f, n) refl
            | inr n ↦ rw (remove_watch, e, f, n, out) gone
          ]
        ]
  ]

  -- the handle behind a call
  abbrev behind : Inotifytools → Option (Inotifytools × W) → Inotifytools
  behind l none = l
  behind l (some (l', s)) = l'

  -- a descriptor is held or closed as often as before, or more often if it was handed over
  abbrev Kept : Inotifytools → Call → Inotifytools → Type 0
  Kept l c l' = (balance d l ≤ balance d l') × (is_neutral c ≡ true → balance d l' ≡ balance d l)

  same_balance : (l l' : Inotifytools) (c : Call) → balance d l' ≡ balance d l → Kept l c l'
  same_balance l l' c e = (omega (arith, e), λ h. e)

  removed :
      (l : Inotifytools) (o : Option ℕ) (c : Call) (s : W)
      → Inv l
      → Kept l c (behind l (remove_watch k l o s >>= λ (_, l', s'). some (l', s')))
  removed l o c s v = elim (Option-cases (remove_watch k l o s)) [
    | inl e ↦ rw e (same_balance l l c refl)
    | inr ((b, l', s'), e) ↦ rw e (
        same_balance l l' c (
          ap (λ (r : Option (Bool × Inotifytools × W)). balance d (behind_removal l r)) (sym e)
          ∙ remove_watch-balance l o s v))
  ]

  renamed :
      (l : Inotifytools) (o : Option ℕ) (name : Bytes) (c : Call) (s : W)
      → Kept l c (
          behind l
            (elim o [ none ↦ some l | some id ↦ rename_watch l id name ] >>= λ l'. some (l', s)))
  unfolding rename_watch watch
  renamed l none name c s = same_balance l l c refl
  renamed l (some id) name c s = elim (Option-cases (get id l.watches)) [
    | inl e ↦ rw (rename_watch, e) (same_balance l l c refl)
    | inr (w, e) ↦
        rw (rename_watch, e) (same_balance l (rename l id w name) c (rename-balance d l id w name))
  ]

  step-Kept :
      (l : Inotifytools) (s : W) (c : Call)
      → l.next_id + cost c < u64_mod
      → Inv l
      → Kept l c (behind l (step k l s c))
  unfolding step remove_watch_by_wd remove_watch_by_filename set_filename_by_wd
      set_filename_by_filename watch_from_wd watch_from_filename watch_files
  step-Kept l s (opens fanotify watch_filesystem verbose) room v =
      same_balance l (init k l fanotify watch_filesystem verbose s).1
        (opens fanotify watch_filesystem verbose)
        (init-balance l fanotify watch_filesystem verbose s)
  step-Kept l s cleans_up room v = (omega (arith, cleanup-balance d real l), λ h. cc)
  step-Kept l s (creates wd fid filename dirf) room v =
      (omega (arith, create_watch-balance d real l wd fid filename dirf v), λ h. cc)
  step-Kept l s (removes_wd wd) room v = removed l (get wd l.by_wd) (removes_wd wd) s v
  step-Kept l s (removes_name name) room v =
      removed l (get name l.by_filename) (removes_name name) s v
  step-Kept l s (renames_wd wd name) room v = renamed l (get wd l.by_wd) name (renames_wd wd name) s
  step-Kept l s (renames_name old name) room v =
      renamed l (get old l.by_filename) name (renames_name old name) s
  step-Kept l s (replaces old name) room v =
      same_balance l (replace_filename l old name) (replaces old name)
        (replace_filename-balance d l old name)
  step-Kept l s (counts wd mask) room v =
      same_balance l (record_stats l wd mask) (counts wd mask) (record_stats-balance d l wd mask)
  step-Kept l s resets room v =
      same_balance l (initialize_stats l) resets (initialize_stats-balance d l)
  step-Kept l s (watches filenames events) room v = (
    watch_each-balance filenames (record l { error = 0 }) events s (omega arith)
        (Inv-of_same l _ refl refl refl refl refl v),
    λ h. cc,
  )

  step-Kept_of :
      (l l' : Inotifytools) (s s' : W) (c : Call)
      → l.next_id + cost c < u64_mod
      → Inv l
      → step k l s c ≡ some (l', s')
      → Kept l c l'
  step-Kept_of l l' s s' c room v e =
      subst (λ (r : Option (Inotifytools × W)). Kept l c (behind l r)) e (step-Kept l s c room v)

  run-Kept :
      (cs : List Call) (l : Inotifytools) (s : W)
      → l.next_id + costs cs < u64_mod
      → Inv l
      → (l' : Inotifytools) × (s' : W) × (run k l s cs ≡ some (l', s'))
        × (balance d l ≤ balance d l')
        × (All (λ c. is_neutral c ≡ true) cs → balance d l' ≡ balance d l)
  unfolding run
  run-Kept [] l s room v = (l, s, refl, omega arith, λ h. refl)
  run-Kept (c ∷ cs) l s room v =
      let (l', s', e, v', n) = step_total k l s c (omega arith) v in
      let (more, same) = step-Kept_of l l' s s' c (omega arith) v e in
      let (l'', s'', e', more', same') = run-Kept cs l' s' (omega arith) v' in
      (l'', s'', rw e e', omega (arith, more, more'), λ h. same' h.1 ∙ same h.0)

  holding-cleanup : (l : Inotifytools) → l.initialized ≡ true → holding d (cleanup l).watches ≡ 0
  unfolding cleanup
  holding-cleanup l h = ground (arith, h)

  -- Over any calls on a handle that satisfies the invariant, whatever the system answers, no
  -- directory descriptor of a watch is lost: if the handle is initialized behind the calls, and is
  -- then cleaned up, no watch is left to hold a descriptor other than 0, and it was closed at least
  -- as often as watches held it or it had been closed before the calls, as long as the calls may
  -- give out fewer ids than are left below 2^64.
  pub run-cleanup_lem :
      (cs : List Call) (l l' : Inotifytools) (s s' : W)
      → l.next_id + costs cs < u64_mod
      → Inv l
      → run k l s cs ≡ some (l', s')
      → l'.initialized ≡ true
      → (holding d (cleanup l').watches ≡ 0)
        × (holding d l.watches + times d l.closed ≤ times d (cleanup l').closed)
  run-cleanup_lem cs l l' s s' room v e ready =
      let (l1, s1, e1, more, same) = run-Kept cs l s room v in
      let is : l1 ≡ l' = ap (λ (r : Option (Inotifytools × W)). behind l r) (sym e1 ∙ e) in
      let none_held = holding-cleanup l' ready in
      let more' : balance d l ≤ balance d l' = subst (λ x. balance d l ≤ balance d x) is more in
      (none_held, omega (arith, none_held, more', cleanup-balance d real l'))

  -- Calls that create no watch, set none up and do not clean up leave, for every descriptor other
  -- than 0 and from a handle that satisfies the invariant, the number of the watches that hold it
  -- and of the times it was closed, taken together: it is closed as many more times as fewer
  -- watches hold it. The calls return, as long as they may give out fewer ids than are left below
  -- 2^64.
  pub run-balance :
      (cs : List Call) (l : Inotifytools) (s : W)
      → l.next_id + costs cs < u64_mod
      → Inv l
      → All (λ c. is_neutral c ≡ true) cs
      → (l' : Inotifytools) × (s' : W) × (run k l s cs ≡ some (l', s'))
        × (holding d l'.watches + times d l'.closed ≡ holding d l.watches + times d l.closed)
  run-balance cs l s room v neutral =
      let (l', s', e, more, same) = run-Kept cs l s room v in (l', s', e, same neutral)
