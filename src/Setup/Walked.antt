-- ===== src/Setup/Walked.antt =====
-- What a part of `watch_recursively_with_exclude` did: the watches that it asked for, in order.
use inotify_tools.Prelude.{
  ℕ, ◌≡◌, refl, sym, ap, ◌∙◌, Bytes, true, false, none, some, List, [], ◌∷◌, ◌++◌, arith, until_nul,
  All, map,
}
use mathlib.Core.List.{append_assoc, append-nil, map-append}
use inotify_tools.Prelude.Ord.{bytes_ord}
use inotify_tools.Handle.{Inotifytools}
use inotify_tools.Kernel.{Kernel}
use inotify_tools.Registry.{create_watch, pick_wd, register, new_watch}
use inotify_tools.Setup.{
  ends_in_slash, as_directory, isdir, add_kernel_watch, add_watch, watch_each, watch_files,
  watch_file,
}
use inotify_tools.Setup.Tree.{Accepts, known}
use inotify_tools.Setup.Slashes.{register-known}

module _ {W : Type 0} (k : Kernel W) (log : W → List (Bytes × ℕ)) (accepts : Accepts k log)
    (events : ℕ) where
  -- what has happened between two states when the directories `ps` were watched
  pub record Walked (l : Inotifytools) (s : W) (ps : List Bytes) (l' : Inotifytools) (s' : W)
      : Type 0 where
    pub logged : log s' ≡ log s ++ map (λ p. (p, events)) ps
    pub mode : l'.fanotify_mode ≡ false
    pub kept : (p : Bytes) → known l p ≡ true → known l' p ≡ true
    pub found : All (λ p. known l' p ≡ true) ps

  pub watch_file-Walked :
      (l : Inotifytools) (p : Bytes) (s : W)
      → l.fanotify_mode ≡ false
      → until_nul p ≡ p
      → ends_in_slash p ≡ true
      → ((s : W) → (k.lstat p s).0 ≡ some true)
      → (l' : Inotifytools) × (s' : W) × (watch_file k l p events s ≡ (true, l', s'))
        × (l'.error ≡ 0)
        × Walked l s (p ∷ []) l' s'
  unfolding watch_file watch_files watch_each add_kernel_watch add_watch isdir as_directory
      create_watch pick_wd known register
  watch_file-Walked l p s inotify clean slashed is =
      let (wd, s1) = k.inotify_add_watch l.fd p events s in
      let s2 = (k.lstat p s1).1 in
      let l1 = record l { error = 0 } in
      let pos = accepts.positive l.fd p events s in
      (
        register l1 (new_watch wd none p 0),
        s2,
        ground (arith, inotify, clean, slashed, is s1, pos),
        refl,
        record {
          logged = accepts.looks p s1 ∙ accepts.adds l.fd p events s;
          mode = inotify;
          kept = λ q h. (register-known l1 wd p q clean).1 h;
          found = ((register-known l1 wd p p clean).0, tt);
        },
      )

  All-kept :
      (l l' : Inotifytools) (ps : List Bytes)
      → ((p : Bytes) → known l p ≡ true → known l' p ≡ true)
      → All (λ p. known l p ≡ true) ps
      → All (λ p. known l' p ≡ true) ps
  All-kept l l' [] keeps h = tt
  All-kept l l' (p ∷ ps) keeps h = (keeps p h.0, All-kept l l' ps keeps h.1)

  All-append :
      (l : Inotifytools) (ps qs : List Bytes)
      → All (λ p. known l p ≡ true) ps
      → All (λ p. known l p ≡ true) qs
      → All (λ p. known l p ≡ true) (ps ++ qs)
  All-append l [] qs h h' = h'
  All-append l (p ∷ ps) qs h h' = (h.0, All-append l ps qs h.1 h')

  pub Walked-append :
      (l : Inotifytools) (s : W) (ps : List Bytes) (l1 : Inotifytools) (s1 : W) (qs : List Bytes)
      (l2 : Inotifytools) (s2 : W)
      → Walked l s ps l1 s1
      → Walked l1 s1 qs l2 s2
      → Walked l s (ps ++ qs) l2 s2
  Walked-append l s ps l1 s1 qs l2 s2 v w = record {
    logged =
        w.logged
        ∙ ap (λ (x : List (Bytes × ℕ)). x ++ map (λ p. (p, events)) qs) v.logged
        ∙ append_assoc (log s) _ _
        ∙ ap (λ (x : List (Bytes × ℕ)). log s ++ x) (sym (map-append (λ p. (p, events)) ps qs));
    mode = w.mode;
    kept = λ p h. w.kept p (v.kept p h);
    found = All-append l2 ps qs (All-kept l1 l2 ps w.kept v.found) w.found;
  }

  -- nothing was watched, and no name was lost
  pub Walked-none :
      (l : Inotifytools) (s : W) (l' : Inotifytools) (s' : W)
      → l.fanotify_mode ≡ false
      → l'.fanotify_mode ≡ l.fanotify_mode
      → l'.by_filename ≡ l.by_filename
      → log s' ≡ log s
      → Walked l s [] l' s'
  unfolding known
  Walked-none l s l' s' inotify mode same quiet = record {
    logged = quiet ∙ sym (append-nil _);
    mode = mode ∙ inotify;
    kept = λ p h. rw same h;
    found = tt;
  }

  -- what leaves `error` alone to be set is no step
  pub Walked-reset :
      (l : Inotifytools) (s : W) (s1 : W) (ps : List Bytes) (l' : Inotifytools) (s' : W)
      → l.fanotify_mode ≡ false
      → log s1 ≡ log s
      → Walked (record l { error = 0 }) s1 ps l' s'
      → Walked l s ps l' s'
  Walked-reset l s s1 ps l' s' inotify quiet w =
      Walked-append l s [] (record l { error = 0 }) s1 ps l' s'
        (Walked-none l s (record l { error = 0 }) s1 inotify refl refl quiet) w
