-- ===== src/Setup/Slashes.antt =====
-- The paths of directories, which end in a slash, and the names of new watches.
use inotify_tools.Prelude.{
  ℕ, ◌≡◌, refl, sym, Bytes, true, false, none, some, [], ◌∷◌, ◌++◌, arith, until_nul, inl, inr,
  Bool-cases, last?, ◌==◌,
}
use mathlib.Core.List.{append_assoc}
use inotify_tools.Prelude.Ord.{bytes_ord}
use inotify_tools.Prelude.Buffer.{NoNul, NoNul-append}
use inotify_tools.BTreeMap.{get-or_insert, same_refl}
use inotify_tools.Handle.{Inotifytools}
use inotify_tools.Registry.{register, new_watch}
use inotify_tools.Paths.{slash}
use inotify_tools.Setup.{ends_in_slash, as_directory, enotdir, tolerated}
use inotify_tools.Setup.Tree.{child, known}

-- the new watch has its name, and no name is lost
pub register-known :
    (l : Inotifytools) (wd : ℕ) (name p : Bytes)
    → until_nul name ≡ name
    → (known (register l (new_watch wd none name 0)) name ≡ true)
      × (known l p ≡ true → known (register l (new_watch wd none name 0)) p ≡ true)
unfolding known register new_watch
register-known l wd name p clean = (
  ground (arith, clean, get-or_insert name name l.next_id l.by_filename, same_refl name),
  λ h. ground (
    arith,
    clean,
    h,
    get-or_insert name p l.next_id l.by_filename,
    get-or_insert name name l.next_id l.by_filename,
  ),
)

pub last?-append : (s : Bytes) (c : ℕ) → last? (s ++ (c ∷ [])) ≡ some c
last?-append [] c = refl
last?-append (x ∷ []) c = refl
last?-append (x ∷ y ∷ s) c = last?-append (y ∷ s) c

pub as_directory_slashed : (path : Bytes) → ends_in_slash path ≡ true → as_directory path ≡ path
unfolding as_directory
as_directory_slashed path h = rw h

pub NoNul-child : (p name : Bytes) → NoNul p → NoNul name → NoNul (child p name)
NoNul-child p name n m =
    NoNul-append p (name ++ (slash ∷ [])) n
      (NoNul-append name (slash ∷ []) m ((λ e. ground (arith, e)), tt))

pub child-slash : (p name : Bytes) → ends_in_slash (child p name) ≡ true
unfolding ends_in_slash
child-slash p name =
    rw (sym (append_assoc p name (slash ∷ [])))
      (rw (last?-append (p ++ name) slash, ends_in_slash) refl)

pub slashed_directory : (path : Bytes) → ends_in_slash (as_directory path) ≡ true
unfolding as_directory ends_in_slash
slashed_directory path = elim (Bool-cases (ends_in_slash path)) [
  | inl h ↦ rw h h
  | inr h ↦ rw h (rw (last?-append path slash, ends_in_slash) refl)
]

pub NoNul-as_directory : (path : Bytes) → NoNul path → NoNul (as_directory path)
unfolding as_directory
NoNul-as_directory path n = elim (Bool-cases (ends_in_slash path)) [
  | inl h ↦ rw h n
  | inr h ↦ rw h (NoNul-append path (slash ∷ []) n ((λ e. ground (arith, e)), tt))
]

pub not_enotdir : (e : ℕ) → tolerated e ≡ true → (e == enotdir) ≡ false
unfolding tolerated
not_enotdir e h = ground arith
