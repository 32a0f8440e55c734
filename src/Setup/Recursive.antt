-- ===== src/Setup/Recursive.antt =====
-- `watch_recursively_with_exclude` on a directory tree: it watches the directories of the tree
-- that are not excluded, each once and those inside a directory before it.
use inotify_tools.Prelude.{
  ℕ, zero, suc, ◌≤◌, ◌<◌, ◌≡◌, refl, ap, ◌∙◌, Bytes, true, false, some, List, [], ◌∷◌, ◌++◌, arith,
  All, map, ◌⊎◌, inl, inr, Bool-cases,
}
use inotify_tools.Prelude.Ord.{bytes_ord}
use inotify_tools.Prelude.Buffer.{until_nul-NoNul, NoNul, NoNul-append}
use inotify_tools.Handle.{Inotifytools}
use inotify_tools.Kernel.{Kernel}
use inotify_tools.Paths.{is_excluded}
use inotify_tools.Setup.{ends_in_slash, as_directory, walk, watch_recursively_with_exclude}
use inotify_tools.Setup.Tree.{
  Tree, file, dir, locked, Entries, end, dots, entry, is_dir, names, depth, depth_entries, child,
  watched, Shows, ShowsEntries, Accepts, known,
}
use inotify_tools.Setup.Slashes.{
  NoNul-child, child-slash, slashed_directory, NoNul-as_directory, not_enotdir,
}
use inotify_tools.Setup.Walked.{watch_file-Walked, Walked-append, Walked-none, Walked-reset}
use inotify_tools.Setup.Entered.{Visits, Walks, pass-Walks, enter-Walks, opened, opened_slashed}

module _ {W : Type 0} (k : Kernel W) (log : W → List (Bytes × ℕ)) (accepts : Accepts k log)
    (events : ℕ) (excludes : List Bytes) where
  mutual
    unfolding depth watched walk watch_recursively_with_exclude as_directory

    visit-Visits :
        (t : Tree) (fuel : ℕ) (p : Bytes) (l : Inotifytools) (s : W)
        → is_dir t ≡ true
        → depth t ≤ fuel
        → NoNul p
        → ends_in_slash p ≡ true
        → Shows k p t
        → l.fanotify_mode ≡ false
        → Visits k log accepts events excludes t fuel p l s
    visit-Visits file fuel p l s isd deep clean slashed shown inotify = cc
    visit-Visits (dir es) zero p l s isd deep clean slashed shown inotify = absurd (omega arith)
    visit-Visits (locked e) zero p l s isd deep clean slashed shown inotify = absurd (omega arith)
    visit-Visits (locked e) (suc fuel) p l s isd deep clean slashed (tol, shown) inotify = (
      false,
      record l { error = e },
      (k.opendir p s).1,
      ground (arith, until_nul-NoNul p clean, slashed, shown s, not_enotdir e tol),
      inr tol,
      Walked-none k log accepts events l s (record l { error = e }) _ inotify refl refl
          (accepts.opens p s),
    )
    visit-Visits (dir es) (suc fuel) p l s isd deep clean slashed (opens, is, shown) inotify =
        let (l1, s1, e, w) =
          entries-Walks es fuel p (record l { error = 0 }) (k.opendir p s).1 (omega arith) clean
            shown inotify in
        let (l2, s2, e', zero_error, w') =
          watch_file-Walked k log accepts events l1 p s1 w.mode (until_nul-NoNul p clean) slashed
            is in
        (
          true,
          l2,
          s2,
          opened_slashed k log accepts events excludes fuel p (names es) l l1 l2 s s1 s2
              (until_nul-NoNul p clean) slashed opens e e',
          inl refl,
          Walked-append k log accepts events l s _ l1 s1 (p ∷ []) l2 s2
              (Walked-reset k log accepts events l s _ _ l1 s1 inotify (accepts.opens p s) w) w',
        )

    entries-Walks :
        (es : Entries) (fuel : ℕ) (p : Bytes) (l : Inotifytools) (s : W)
        → depth_entries es ≤ fuel
        → NoNul p
        → ShowsEntries k p es
        → l.fanotify_mode ≡ false
        → Walks k log accepts events excludes es fuel p l s
    entries-Walks end fuel p l s deep clean shown inotify =
        (l, s, refl, Walked-none k log accepts events l s l s inotify refl refl refl)
    entries-Walks (dots name es) fuel p l s deep clean (d, shown) inotify =
        let (l', s', e, w) =
          entries-Walks es fuel p (record l { error = 0 }) s deep clean shown inotify in
        (
          l',
          s',
          ground (arith, d, e),
          Walked-reset k log accepts events l s s _ l' s' inotify refl w,
        )
    entries-Walks (entry name t es) fuel p l s deep clean (plain, named, is, below, shown) inotify =
        let whole = NoNul-append p name clean named in
        let pass = λ (which : (is_dir t ≡ false) ⊎ (is_excluded (child p name) excludes ≡ true)).
          pass-Walks k log accepts events excludes p name t es fuel l s plain whole is which inotify
            (entries-Walks es fuel p (record l { error = 0 }) _ (ground (arith, deep)) clean shown
              inotify) in
        elim (Bool-cases (is_dir t)) [
          | inr f ↦ pass (inl f)
          | inl d ↦ elim (Bool-cases (is_excluded (child p name) excludes)) [
            | inl x ↦ pass (inr x)
            | inr x ↦
                enter-Walks k log accepts events excludes p name t es fuel l s plain whole is d x
                  inotify
                  (visit-Visits t fuel (child p name) l _ d (ground (arith, deep))
                    (NoNul-child p name clean named) (child-slash p name) below inotify)
                  (λ l' s' inotify'.
                    entries-Walks es fuel p l' s' (ground (arith, deep)) clean shown inotify')
          ]
        ]

  -- In inotify mode, on a directory tree without NULs in its names, of which the system answers
  -- the same at any time and refuses no watch, and with fuel for the depth of the tree, the call
  -- succeeds with error 0. It asks the kernel for a watch on each directory of the tree that lies in
  -- no excluded one and can be opened, exactly once and after those inside it, and for no other;
  -- each has a watch under its name then, and so has every name that had one before. A
  -- subdirectory that cannot be opened, or is gone, or is a loop of links is passed over.
  pub watch_recursively_with_exclude_lem :
      (es : Entries) (fuel : ℕ) (path : Bytes) (l : Inotifytools) (s : W)
      → depth_entries es < fuel
      → NoNul path
      → ((s : W) → (k.opendir path s).0 ≡ some (names es))
      → Shows k (as_directory path) (dir es)
      → l.fanotify_mode ≡ false
      → (l' : Inotifytools) × (s' : W) × (watch_recursively_with_exclude k fuel l path events
            excludes s
          ≡ some (true, l', s'))
        × (l'.error ≡ 0)
        × (log s' ≡ log s ++ map (λ p. (p, events)) (watched excludes (as_directory path) (dir es)))
        × All (λ p. known l' p ≡ true) (watched excludes (as_directory path) (dir es))
        × ((p : Bytes) → known l p ≡ true → known l' p ≡ true)
  unfolding watch_recursively_with_exclude watched
  watch_recursively_with_exclude_lem es zero path l s deep clean opens shown inotify =
      absurd (omega arith)
  watch_recursively_with_exclude_lem es (suc fuel) path l s deep clean opens (opens', is, shown)
        inotify =
      let p = as_directory path in
      let n = NoNul-as_directory path clean in
      let (l1, s1, e, w) =
        entries-Walks es fuel p (record l { error = 0 }) (k.opendir path s).1 (omega arith) n shown
          inotify in
      let (l2, s2, e', zero_error, w') =
        watch_file-Walked k log accepts events l1 p s1 w.mode (until_nul-NoNul p n)
          (slashed_directory path) is in
      let all =
        Walked-append k log accepts events l s _ l1 s1 (p ∷ []) l2 s2
          (Walked-reset k log accepts events l s _ _ l1 s1 inotify (accepts.opens path s) w) w' in
      (
        l2,
        s2,
        opened k log accepts events excludes fuel path (names es) l l1 s s1
              (until_nul-NoNul path clean) opens e
            ∙ ap some e',
        zero_error,
        all.logged,
        all.found,
        all.kept,
      )
