-- ===== src/Setup/Created.antt =====
-- What the setup of watches does to the handle: it only creates watches.
use inotify_tools.Prelude.{
  ℕ, suc, ◌+◌, ◌≡◌, refl, ◌∙◌, Bytes, not, Option, none, some, ◌==◌, arith, ap, if◌then◌else◌, take,
  replicate, until_nul, is_some, Bool-cases, Option-cases, inl, inr, length,
}
use mathlib.Core.Path.{subst}
use inotify_tools.Prelude.Word.{is_neg}
use inotify_tools.Prelude.Buffer.{write_at}
use inotify_tools.Fid.{fsid_key, fid_hdr, max_fid_len}
use inotify_tools.Handle.{Inotifytools}
use inotify_tools.Kernel.{Kernel}
use inotify_tools.Registry.{create_watch, pick_wd, next_free, watch_from_fid, register}
use inotify_tools.Setup.{as_directory, isdir, add_mount, fanotify_encode_fid, add_watch}

-- the second handle is the first after at most so many calls of `create_watch`
pub data Created : ℕ → Inotifytools → Inotifytools → Type 0 where
  as_before : {n : ℕ} {l l' : Inotifytools} → l' ≡ l → Created n l l'
  one_more :
      {n : ℕ} {l l' l'' : Inotifytools} (wd : ℕ) (fid : Option Bytes) (name : Bytes) (dirf : ℕ)
      → Created n l l'
      → l'' ≡ (create_watch l' wd fid name dirf).0
      → Created (suc n) l l''

Created-suc : {n : ℕ} {l l' : Inotifytools} → Created n l l' → Created (suc n) l l'
Created-suc (as_before e) = as_before e
Created-suc (one_more wd fid name dirf c e) = one_more wd fid name dirf (Created-suc c) e

module _ {W : Type 0} (k : Kernel W) where
  abbrev Mounted : Inotifytools → Option Inotifytools → Type 0
  Mounted l none = Unit
  Mounted l (some l') = Created 1 l l'

  add_mount-Mounted :
      (l : Inotifytools) (f : Bytes) (dirname : Option Bytes) (s : W)
      → Mounted l (add_mount k l f dirname s).0
  unfolding add_mount
  add_mount-Mounted l f none s = as_before refl
  add_mount-Mounted l f (some d) s = elim (Bool-cases (is_some (watch_from_fid l f))) [
    | inl e ↦ rw e (as_before refl)
    | inr e ↦ elim (Bool-cases (is_neg (k.open_readonly (until_nul d) s).0)) [
      | inl n ↦ rw (e, n) tt
      | inr n ↦
          rw (e, n)
            (one_more 0 (some (fsid_key f)) _ (k.open_readonly (until_nul d) s).0 (as_before refl)
              refl)
    ]
  ]

  encode-Created :
      (l : Inotifytools) (cpath : Bytes) (dirname : Option Bytes) (s : W)
      → Created 1 l (fanotify_encode_fid k l cpath dirname s).1
  unfolding fanotify_encode_fid
  encode-Created l cpath dirname s = elim (Option-cases (k.statfs cpath s).0) [
    | inl e ↦ rw (fanotify_encode_fid, e) (as_before refl)
    | inr (fsid, e) ↦
        let f = write_at (replicate (fid_hdr + max_fid_len) 0) 4 (take 8 fsid) in
        let mounted = add_mount-Mounted l f dirname (k.statfs cpath s).1 in
        elim (Option-cases (add_mount k l f dirname (k.statfs cpath s).1).0) [
          | inl e' ↦ rw (fanotify_encode_fid, e, e') (as_before refl)
          | inr (l', e') ↦ rw (fanotify_encode_fid, e, e') (subst (Mounted l) e' mounted)
        ]
  ]

  pub add_watch-Created :
      (l : Inotifytools) (fname : Bytes) (wd : ℕ) (s : W) → Created 2 l (add_watch k l fname wd s).1
  unfolding add_watch
  add_watch-Created l fname wd s =
      let (is_dir, s') = isdir k fname s in
      let filename = if is_dir then as_directory fname else fname in
      let dirname : Option Bytes = if is_dir then some filename else none in
      elim (Bool-cases (not (wd == 0))) [
        | inl e ↦ rw e (one_more wd none filename 0 (as_before refl) refl)
        | inr e ↦
            let c = encode-Created l fname dirname s' in
            elim (Option-cases (fanotify_encode_fid k l fname dirname s').0) [
              | inl e' ↦ rw (e, e') (Created-suc c)
              | inr ((fid, dirf), e') ↦ rw (e, e') (one_more wd (some fid) filename dirf c refl)
            ]
      ]

-- the error and the mode are those of before
abbrev pub Same : Inotifytools → Inotifytools → Type 0
Same l l' = (l'.error ≡ l.error) × (l'.fanotify_mode ≡ l.fanotify_mode)

create_watch-Same :
    (l : Inotifytools) (wd : ℕ) (fid : Option Bytes) (name : Bytes) (dirf : ℕ)
    → Same l (create_watch l wd fid name dirf).0
unfolding create_watch pick_wd register
create_watch-Same l wd fid name dirf =
    elim (Option-cases (next_free (suc (length l.by_wd)) l.next_fanotify_wd l.by_wd)) [
      | inl e ↦ ground (arith, e)
      | inr (w, e) ↦ ground (arith, e)
    ]

pub Created-Same : (n : ℕ) (l l' : Inotifytools) → Created n l l' → Same l l'
Created-Same n l l' (as_before e) =
    (ap (λ (l : Inotifytools). l.error) e, ap (λ (l : Inotifytools). l.fanotify_mode) e)
Created-Same (suc n) l l'' (one_more {l' = l'} wd fid name dirf c e) =
    let (x, y) = Created-Same n l l' c in
    let (x', y') = create_watch-Same l' wd fid name dirf in
    (
      ap (λ (l : Inotifytools). l.error) e ∙ x' ∙ x,
      ap (λ (l : Inotifytools). l.fanotify_mode) e ∙ y' ∙ y,
    )
