-- ===== src/Setup/Entered.antt =====
-- The rounds of `walk`, the opening of a directory and what they leave watched.
use inotify_tools.Prelude.{
  ℕ, suc, ◌≡◌, refl, ap, ◌∙◌, Bytes, Bool, true, false, ◌||◌, Option, some, List, [], ◌∷◌, ◌++◌,
  arith, if◌then◌else◌, eqb, until_nul, ◌⊎◌, inl, inr,
}
use inotify_tools.Prelude.Ord.{bytes_ord}
use inotify_tools.Prelude.Buffer.{until_nul-NoNul, NoNul}
use inotify_tools.Handle.{Inotifytools}
use inotify_tools.Kernel.{Kernel}
use inotify_tools.Paths.{dot, is_excluded}
use inotify_tools.Setup.{
  ends_in_slash, as_directory, watch_file, tolerated, walk, visit_directory,
  watch_recursively_with_exclude,
}
use inotify_tools.Setup.Tree.{
  Tree, file, dir, locked, Entries, entry, is_dir, names, child, watched, watched_entries, Accepts,
}
use inotify_tools.Setup.Slashes.{as_directory_slashed}
use inotify_tools.Setup.Walked.{Walked, Walked-append, Walked-none, Walked-reset}

module _ {W : Type 0} (k : Kernel W) (log : W → List (Bytes × ℕ)) (accepts : Accepts k log)
    (events : ℕ) (excludes : List Bytes) where
  abbrev pub visiting : ℕ → Inotifytools → Bytes → W → Option (Bool × Inotifytools × W)
  visiting fuel l next s = watch_recursively_with_exclude k fuel l next events excludes s

  abbrev pub Visits : Tree → ℕ → Bytes → Inotifytools → W → Type 0
  Visits t fuel p l s =
      (b : Bool) × (l' : Inotifytools) × (s' : W) × (watch_recursively_with_exclude k fuel l p
          events excludes s
        ≡ some (b, l', s'))
      × ((b ≡ true) ⊎ (tolerated l'.error ≡ true))
      × Walked k log accepts events l s (watched excludes p t) l' s'

  abbrev pub Walks : Entries → ℕ → Bytes → Inotifytools → W → Type 0
  Walks es fuel p l s =
      (l' : Inotifytools) × (s' : W) × (walk k (visiting fuel) p excludes l (names es) s
        ≡ some (true, l', s'))
      × Walked k log accepts events l s (watched_entries excludes p es) l' s'

  watched_file : (t : Tree) (p : Bytes) → is_dir t ≡ false → watched excludes p t ≡ []
  unfolding watched
  watched_file file p h = refl
  watched_file (dir es) p h = cc
  watched_file (locked e) p h = cc

  -- a round of `walk` for a name that is not watched, and for one that is
  pub pass-Walks :
      (p name : Bytes) (t : Tree) (es : Entries) (fuel : ℕ) (l : Inotifytools) (s : W)
      → (eqb name (dot ∷ []) || eqb name (dot ∷ dot ∷ [])) ≡ false
      → NoNul (p ++ name)
      → ((s : W) → (k.lstat (p ++ name) s).0 ≡ some (is_dir t))
      → (is_dir t ≡ false) ⊎ (is_excluded (child p name) excludes ≡ true)
      → l.fanotify_mode ≡ false
      → Walks es fuel p (record l { error = 0 }) (k.lstat (p ++ name) s).1
      → Walks (entry name t es) fuel p l s
  unfolding walk watched
  pass-Walks p name t es fuel l s plain clean is which inotify (l', s', e, w) =
      let cut = until_nul-NoNul (p ++ name) clean in
      let none_watched : (if is_excluded (child p name) excludes
            then []
            else watched excludes (child p name) t)
          ≡ [] =
        elim which [ inl f ↦ ground (arith, f, watched_file t (child p name) f) | inr x ↦ rw x ] in
      (
        l',
        s',
        ground (arith, plain, cut, is s, which, e),
        rw none_watched (
            Walked-reset k log accepts events l s _ _ l' s' inotify (accepts.looks (p ++ name) s)
              w),
      )

  pub enter-Walks :
      (p name : Bytes) (t : Tree) (es : Entries) (fuel : ℕ) (l : Inotifytools) (s : W)
      → (eqb name (dot ∷ []) || eqb name (dot ∷ dot ∷ [])) ≡ false
      → NoNul (p ++ name)
      → ((s : W) → (k.lstat (p ++ name) s).0 ≡ some (is_dir t))
      → is_dir t ≡ true
      → is_excluded (child p name) excludes ≡ false
      → l.fanotify_mode ≡ false
      → Visits t fuel (child p name) l (k.lstat (p ++ name) s).1
      → ((l' : Inotifytools) (s' : W) → l'.fanotify_mode ≡ false → Walks es fuel p l' s')
      → Walks (entry name t es) fuel p l s
  unfolding walk watched
  enter-Walks p name t es fuel l s plain clean is isd kept inotify (b, l1, s1, e, ok, w) rest =
      let cut = until_nul-NoNul (p ++ name) clean in
      let (l', s', e', w') = rest (record l1 { error = 0 }) s1 w.mode in
      let first : Walked k log accepts events l s (watched excludes (child p name) t) l1 s1 =
        Walked-append k log accepts events l s [] l (k.lstat (p ++ name) s).1 _ l1 s1
          (Walked-none k log accepts events l s l _ inotify refl refl (accepts.looks (p ++ name) s))
          w in
      let both =
        Walked-append k log accepts events l s _ l1 s1 _ l' s' first
          (Walked-reset k log accepts events l1 s1 s1 _ l' s' w.mode refl w') in
      (l', s', ground (arith, plain, cut, is s, isd, kept, e, ok, e'), rw kept both)

  -- a directory that can be opened, and whose subdirectories are done
  visit_opened :
      (visit : Inotifytools → Bytes → W → Option (Bool × Inotifytools × W)) (path : Bytes)
      (ns : List Bytes) (l l1 : Inotifytools) (s s1 : W)
      → (k.opendir (until_nul path) s).0 ≡ some ns
      → walk k visit
          (as_directory (until_nul path))
          excludes
          (record l { error = 0 })
          ns
          (k.opendir (until_nul path) s).1
        ≡ some (true, l1, s1)
      → visit_directory k visit l path events excludes s
        ≡ some (watch_file k l1 (as_directory (until_nul path)) events s1)
  unfolding visit_directory
  visit_opened visit path ns l l1 s s1 opens e = rw (visit_directory, opens, e)

  pub opened :
      (fuel : ℕ) (path : Bytes) (ns : List Bytes) (l l1 : Inotifytools) (s s1 : W)
      → until_nul path ≡ path
      → ((s : W) → (k.opendir path s).0 ≡ some ns)
      → walk k
          (visiting fuel)
          (as_directory path)
          excludes
          (record l { error = 0 })
          ns
          (k.opendir path s).1
        ≡ some (true, l1, s1)
      → watch_recursively_with_exclude k (suc fuel) l path events excludes s
        ≡ some (watch_file k l1 (as_directory path) events s1)
  unfolding watch_recursively_with_exclude
  opened fuel path ns l l1 s s1 clean opens e =
      visit_opened (visiting fuel) path ns l l1 s s1 (rw clean (opens s)) (rw clean e)
      ∙ ap (λ q. some (watch_file k l1 (as_directory q) events s1)) clean

  pub opened_slashed :
      (fuel : ℕ) (path : Bytes) (ns : List Bytes) (l l1 l2 : Inotifytools) (s s1 s2 : W)
      → until_nul path ≡ path
      → ends_in_slash path ≡ true
      → ((s : W) → (k.opendir path s).0 ≡ some ns)
      → walk k (visiting fuel) path excludes (record l { error = 0 }) ns (k.opendir path s).1
        ≡ some (true, l1, s1)
      → watch_file k l1 path events s1 ≡ (true, l2, s2)
      → watch_recursively_with_exclude k (suc fuel) l path events excludes s ≡ some (true, l2, s2)
  opened_slashed fuel path ns l l1 l2 s s1 s2 clean slashed opens e e' =
      let same = as_directory_slashed path slashed in
      opened fuel path ns l l1 s s1 clean opens (rw same e) ∙ ap some (rw same e')
