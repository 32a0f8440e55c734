-- ===== src/Program/Kept.antt =====
-- What the setup of watches leaves in the handle: its descriptor, its mode and its filter.
use inotify_tools.Prelude.{
  ℕ, suc, ◌≡◌, refl, ◌∙◌, Bytes, Bool, false, Option, none, some, List, [], ◌∷◌, ◌==◌, arith, ap,
  until_nul, Bool-cases, Option-cases, inl, inr, length,
}
use mathlib.Core.Path.{subst}
use inotify_tools.Prelude.Word.{is_neg, minus_one}
use inotify_tools.Handle.{Inotifytools}
use inotify_tools.Kernel.{Kernel}
use inotify_tools.Registry.{create_watch, pick_wd, next_free, register}
use inotify_tools.Setup.{add_kernel_watch, add_watch, watch_each, watch_files, watch_file}
use inotify_tools.Setup.Created.{Created, as_before, one_more, add_watch-Created}
use inotify_tools.Tracker.{watch_list, watch_rest, watch_one}
use inotify_tools.Paths.{FileList}

abbrev pub Kept : Inotifytools → Inotifytools → Type 0
Kept l l' = (l'.fd ≡ l.fd) × (l'.fanotify_mode ≡ l.fanotify_mode) × (l'.regex ≡ l.regex)

Kept-trans : (l l' l'' : Inotifytools) → Kept l l' → Kept l' l'' → Kept l l''
Kept-trans l l' l'' (a, b, c) (a', b', c') = (a' ∙ a, b' ∙ b, c' ∙ c)

Kept-path : (l l' : Inotifytools) → l' ≡ l → Kept l l'
Kept-path l l' e = (
  ap (λ (l : Inotifytools). l.fd) e,
  ap (λ (l : Inotifytools). l.fanotify_mode) e,
  ap (λ (l : Inotifytools). l.regex) e,
)

create_watch-Kept :
    (l : Inotifytools) (wd : ℕ) (fid : Option Bytes) (name : Bytes) (dirf : ℕ)
    → Kept l (create_watch l wd fid name dirf).0
unfolding create_watch pick_wd register
create_watch-Kept l wd fid name dirf =
    elim (Option-cases (next_free (suc (length l.by_wd)) l.next_fanotify_wd l.by_wd)) [
      | inl e ↦ ground (arith, e)
      | inr (w, e) ↦ ground (arith, e)
    ]

Created-Kept : (n : ℕ) (l l' : Inotifytools) → Created n l l' → Kept l l'
Created-Kept n l l' (as_before e) = Kept-path l l' e
Created-Kept (suc n) l l'' (one_more {l' = l'} wd fid name dirf c e) =
    Kept-trans l l' l'' (Created-Kept n l l' c) (
      Kept-trans l' (create_watch l' wd fid name dirf).0 l'' (create_watch-Kept l' wd fid name dirf)
        (Kept-path (create_watch l' wd fid name dirf).0 l'' e))

module _ {W : Type 0} (k : Kernel W) where
  watch_each-Kept :
      (filenames : List Bytes) (l : Inotifytools) (events : ℕ) (s : W)
      → Kept l (watch_each k l filenames events s).1
  unfolding watch_each
  watch_each-Kept [] l events s = (refl, refl, refl)
  watch_each-Kept (filename ∷ filenames) l events s =
      let fname = until_nul filename in
      let (wd, events', s') = add_kernel_watch k l fname events s in
      let first = Created-Kept 2 l _ (add_watch-Created k l fname wd s') in
      elim (Bool-cases (is_neg wd)) [
        | inl e ↦ elim (Bool-cases (wd == minus_one)) [
          | inl m ↦ rw (e, m) (refl, refl, refl)
          | inr m ↦ rw (e, m) (refl, refl, refl)
        ]
        | inr e ↦ elim (Bool-cases (add_watch k l fname wd s').0) [
          | inr b ↦ rw (e, b) first
          | inl b ↦
              rw (e, b)
                (Kept-trans l (add_watch k l fname wd s').1
                  (watch_each k (add_watch k l fname wd s').1 filenames events'
                    (add_watch k l fname wd s').2).1
                  first
                  (watch_each-Kept filenames (add_watch k l fname wd s').1 events'
                    (add_watch k l fname wd s').2))
        ]
      ]

  watch_file-Kept :
      (l : Inotifytools) (f : Bytes) (events : ℕ) (s : W) → Kept l (watch_file k l f events s).1
  unfolding watch_file watch_files
  watch_file-Kept l f events s = watch_each-Kept (f ∷ []) (record l { error = 0 }) events s

module _ {W : Type 0} (k : Kernel W) (strerror : ℕ → Bytes) (fuel : ℕ) (excludes : List Bytes)
    (fanotify : Bool) (fail_verb : Bytes) (before after : Bytes → List Bytes) where
  -- the handle of a result
  abbrev KeptBy : Inotifytools → Option (Bool × List Bytes × Inotifytools × W) → Type 0
  KeptBy l none = Unit
  KeptBy l (some (ok, out, l', s')) = Kept l l'

  watch_rest-KeptBy :
      (files : List Bytes) (l : Inotifytools) (events : ℕ) (s : W)
      → KeptBy l (
          watch_rest k strerror fuel l files excludes events false fanotify fail_verb before after
            s)
  unfolding watch_rest watch_one
  watch_rest-KeptBy [] l events s = (refl, refl, refl)
  watch_rest-KeptBy (f ∷ files) l events s =
      let (ok, l', s') = watch_file k l f events s in
      let first = watch_file-Kept k l f events s in
      let rest =
        watch_rest k strerror fuel l' files excludes events false fanotify fail_verb before after
          s' in
      let others = watch_rest-KeptBy files l' events s' in
      elim (Bool-cases (watch_file k l f events s).0) [
        | inr e ↦ rw e first
        | inl e ↦ elim (Option-cases rest) [
          | inl g ↦ rw (e, g) tt
          | inr ((ok', out, l'', s''), g) ↦
              rw (e, g) (Kept-trans l l' l'' first (subst (KeptBy l') g others))
        ]
      ]

-- `watch_list` on files, without recursion
pub watch_list-Kept :
    {W : Type 0} (k : Kernel W) (strerror : ℕ → Bytes) (fuel : ℕ) (l l' : Inotifytools)
    (list : FileList) (events : ℕ) (fanotify : Bool) (fail_verb : Bytes)
    (before after : Bytes → List Bytes) (ok : Bool) (out : List Bytes) (s s' : W)
    → watch_list k strerror fuel l list events false false fanotify fail_verb before after s
      ≡ some (ok, out, l', s')
    → Kept l l'
unfolding watch_list
watch_list-Kept k strerror fuel l l' list events fanotify fail_verb before after ok out s s' e =
    subst (KeptBy k strerror fuel list.exclude_files fanotify fail_verb before after l) e (
      watch_rest-KeptBy k strerror fuel list.exclude_files fanotify fail_verb before after
        list.watch_files l events s)
