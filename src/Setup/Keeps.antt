-- ===== src/Setup/Keeps.antt =====
-- `watch_files` keeps the registry's invariant, whatever the system answers.
use inotify_tools.Prelude.{
  ℕ, suc, sym, ◌+◌, ◌*◌, ◌≤◌, ◌<◌, refl, Bytes, List, [], ◌∷◌, arith, length, until_nul, Bool-cases,
  inl, inr, ◌==◌,
}
use inotify_tools.Prelude.Word.{u64_mod, is_neg, minus_one}
use mathlib.Core.Path.{subst}
use inotify_tools.Handle.{Inotifytools}
use inotify_tools.Kernel.{Kernel}
use inotify_tools.Registry.Invariant.{Inv}
use inotify_tools.Session.Keeps.{Inv-of_same, create_watch-Inv}
use inotify_tools.Setup.Created.{Created, as_before, one_more, add_watch-Created}
use inotify_tools.Setup.{add_kernel_watch, add_watch, watch_each, watch_files}

-- the invariant holds and at most `n` ids were given out
abbrev pub Grows : ℕ → Inotifytools → Inotifytools → Type 0
Grows n l l' = Inv l' × (l'.next_id ≤ l.next_id + n)

pub Created-Grows :
    (n : ℕ) (l l' : Inotifytools) → Created n l l' → l.next_id + n < u64_mod → Inv l → Grows n l l'
Created-Grows n l l' (as_before e) room v = subst (Grows n l) (sym e) (v, omega arith)
Created-Grows (suc n) l l'' (one_more {l' = l'} wd fid name dirf c e) room v =
    let (v', m) = Created-Grows n l l' c (omega arith) v in
    let (v'', m') = create_watch-Inv l' wd fid name dirf (omega arith) v' in
    subst (Grows (suc n) l) (sym e) (v'', omega arith)

module _ {W : Type 0} (k : Kernel W) where
  watch_each-Grows :
      (filenames : List Bytes) (l : Inotifytools) (events : ℕ) (s : W)
      → l.next_id + 2 * length filenames < u64_mod
      → Inv l
      → Grows (2 * length filenames) l (watch_each k l filenames events s).1
  unfolding watch_each
  watch_each-Grows [] l events s room v = (v, omega arith)
  watch_each-Grows (filename ∷ filenames) l events s room v =
      let fname = until_nul filename in
      let (wd, events', s') = add_kernel_watch k l fname events s in
      let (v', n) = Created-Grows 2 l _ (add_watch-Created k l fname wd s') (omega arith) v in
      elim (Bool-cases (is_neg wd)) [
        | inl e ↦ elim (Bool-cases (wd == minus_one)) [
          | inl m ↦ rw (e, m) (Inv-of_same l _ refl refl refl refl refl v, omega arith)
          | inr m ↦ rw (e, m) (v, omega arith)
        ]
        | inr e ↦ elim (Bool-cases (add_watch k l fname wd s').0) [
          | inr b ↦ rw (e, b) (v', omega arith)
          | inl b ↦
              let (v'', n') =
                watch_each-Grows filenames (add_watch k l fname wd s').1 events'
                  (add_watch k l fname wd s').2 (omega arith) v' in
              rw (e, b) (v'', omega arith)
        ]
      ]

  pub watch_files-Grows :
      (filenames : List Bytes) (l : Inotifytools) (events : ℕ) (s : W)
      → l.next_id + 2 * length filenames < u64_mod
      → Inv l
      → Grows (2 * length filenames) l (watch_files k l filenames events s).1
  unfolding watch_files
  watch_files-Grows filenames l events s room v =
      watch_each-Grows filenames (record l { error = 0 }) events s room
        (Inv-of_same l _ refl refl refl refl refl v)
