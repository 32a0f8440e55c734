-- ===== src/Tracker/Listed.antt =====
-- `watch_list` file by file, against `watch_files` on the whole list.
use inotify_tools.Prelude.{
  ℕ, ◌≡◌, refl, sym, ap, ◌∙◌, Bytes, Bool, true, false, some, List, [], ◌∷◌, ◌++◌, ◌==◌, arith,
  if◌then◌else◌, until_nul, Bool-cases, inl, inr, ◌≢◌,
}
use mathlib.Core.Path.{subst}
use inotify_tools.Prelude.Word.{is_neg}
use inotify_tools.Handle.{Inotifytools}
use inotify_tools.Kernel.{Kernel}
use inotify_tools.Paths.{FileList}
use inotify_tools.Setup.{add_kernel_watch, add_watch, watch_each, watch_files, watch_file}
use inotify_tools.Setup.Created.{add_watch-Created, Created-Same}
use inotify_tools.Tracker.{watch_list, watch_rest, watch_one, failure, enospc}

reset_quiet : (l : Inotifytools) → l.error ≡ 0 → record l { error = 0 } ≡ l
reset_quiet l e = ap (λ (x : ℕ). record l { error = x }) (sym e)

-- the messages of a list that is watched
abbrev pub told : (Bytes → List Bytes) → (Bytes → List Bytes) → List Bytes → List Bytes
told before after [] = []
told before after (f ∷ fs) = before f ++ (after f ++ told before after fs)

-- what the messages say of the result
abbrev pub Reports : Bool → List Bytes → List Bytes → Type 0
Reports true out told = out ≡ told
Reports false out told = out ≢ []

append_some : (xs ys : List Bytes) → ys ≢ [] → xs ++ ys ≢ []
append_some [] ys h = h
append_some (x ∷ xs) ys h = λ e. ground (arith, e)

failure_some :
    (strerror : ℕ → Bytes) (fail_verb : Bytes) (fanotify : Bool) (f : Bytes) (error : ℕ)
    → failure strerror fail_verb fanotify f error ≢ []
unfolding failure
failure_some strerror fail_verb fanotify f error = elim (Bool-cases (error == enospc)) [
  | inl e ↦ rw e (λ h. cc)
  | inr e ↦ rw e (λ h. cc)
]

Reports-after :
    (ok : Bool) (before after out told : List Bytes)
    → Reports ok out told
    → Reports ok (before ++ (after ++ out)) (before ++ (after ++ told))
Reports-after true before after out told r = ap (λ (x : List Bytes). before ++ (after ++ x)) r
Reports-after false before after out told r = append_some before _ (append_some after out r)

module _ {W : Type 0} (k : Kernel W) (strerror : ℕ → Bytes) where
  -- `watch_files` on a list, one file at a time
  one_by_one : Inotifytools → List Bytes → ℕ → W → Bool × Inotifytools × W
  one_by_one l [] events s = (true, l, s)
  one_by_one l (f ∷ fs) events s =
      let (ok, l', s') = watch_file k l f events s in
      let rest = one_by_one l' fs events s' in if ok then rest else (false, l', s')

  watch_file_quiet :
      (l : Inotifytools) (f : Bytes) (events : ℕ) (s : W)
      → l.error ≡ 0
      → watch_file k l f events s ≡ watch_each k l (f ∷ []) events s
  unfolding watch_file watch_files
  watch_file_quiet l f events s quiet =
      ap (λ (l : Inotifytools). watch_each k l (f ∷ []) events s) (reset_quiet l quiet)

  add_kernel_watch_inotify :
      (l : Inotifytools) (fname : Bytes) (events : ℕ) (s : W)
      → l.fanotify_mode ≡ false
      → (add_kernel_watch k l fname events s).1 ≡ events
  unfolding add_kernel_watch
  add_kernel_watch_inotify l fname events s e = rw e refl

  one_by_one-watch_each :
      (fs : List Bytes) (l : Inotifytools) (events : ℕ) (s : W)
      → l.fanotify_mode ≡ false
      → l.error ≡ 0
      → one_by_one l fs events s ≡ watch_each k l fs events s
  unfolding one_by_one watch_each
  one_by_one-watch_each [] l events s inotify quiet = refl
  one_by_one-watch_each (f ∷ fs) l events s inotify quiet =
      let fname = until_nul f in
      let (wd, events', s') = add_kernel_watch k l fname events s in
      let (same_error, same_mode) = Created-Same 2 l _ (add_watch-Created k l fname wd s') in
      let (ok, l', s'') = add_watch k l fname wd s' in
      let rest =
        one_by_one-watch_each fs l' events s'' (same_mode ∙ inotify) (same_error ∙ quiet) in
      rw (watch_file_quiet l f events s quiet) (elim (Bool-cases (is_neg wd)) [
        | inl e ↦ rw (watch_each, e) refl
        | inr e ↦ elim (Bool-cases ok) [
          | inl y ↦ rw (watch_each, e, y, add_kernel_watch_inotify l fname events s inotify) rest
          | inr n ↦ rw (watch_each, e, n) refl
        ]
      ])

  watch_rest-one_by_one :
      (fuel : ℕ) (l : Inotifytools) (fs excludes : List Bytes) (events : ℕ) (fanotify : Bool)
      (fail_verb : Bytes) (before after : Bytes → List Bytes) (s : W)
      → (out : List Bytes) × (let (ok, l', s') = one_by_one l fs events s in
          (watch_rest k strerror fuel l fs excludes events false fanotify fail_verb before after s
            ≡ some (ok, out, l', s'))
          × Reports ok out (told before after fs))
  unfolding one_by_one watch_rest watch_one
  watch_rest-one_by_one fuel l [] excludes events fanotify fail_verb before after s =
      ([], (refl, refl))
  watch_rest-one_by_one fuel l (f ∷ fs) excludes events fanotify fail_verb before after s =
      let (ok, l', s') = watch_file k l f events s in
      let (out, (e, r)) =
        watch_rest-one_by_one fuel l' fs excludes events fanotify fail_verb before after s' in
      elim (Bool-cases ok) [
        | inl y ↦ (
          before f ++ (after f ++ out),
          (ground (arith, y, e), rw y (Reports-after _ (before f) (after f) out _ r)),
        )
        | inr n ↦ (
          before f ++ failure strerror fail_verb fanotify f l'.error,
          (
            ground (arith, n),
            rw n (append_some (before f) _ (failure_some strerror fail_verb fanotify f l'.error)),
          ),
        )
      ]

  -- Outside fanotify and with no error left from before, `watch_list` on a list, neither recursively
  -- nor for a filesystem, does what `watch_files` does on the whole list at once: it has the same
  -- success, handle and state of the system. If it succeeds, its messages are those of `before` and
  -- `after` for each file in turn, and if it fails, there is a message.
  pub watch_list-watch_files :
      (fuel : ℕ) (l : Inotifytools) (list : FileList) (events : ℕ) (fanotify : Bool)
      (fail_verb : Bytes) (before after : Bytes → List Bytes) (s : W)
      → l.fanotify_mode ≡ false
      → l.error ≡ 0
      → (out : List Bytes) × (let (ok, l', s') = watch_files k l list.watch_files events s in
          (watch_list k strerror fuel l list events false false fanotify fail_verb before after s
            ≡ some (ok, out, l', s'))
          × Reports ok out (told before after list.watch_files))
  unfolding watch_list watch_files
  watch_list-watch_files fuel l list events fanotify fail_verb before after s inotify quiet =
      let (out, (e, r)) =
        watch_rest-one_by_one fuel l list.watch_files list.exclude_files events fanotify fail_verb
          before after s in
      let same = one_by_one-watch_each list.watch_files l events s inotify quiet in
      let reset = reset_quiet l quiet in
      (
        out,
        (
          ground (arith, e, same, reset),
          subst
              (λ (r : Bool × Inotifytools × W).
                Reports r.0 out (told before after list.watch_files))
              (same
                ∙ ap (λ (l : Inotifytools). watch_each k l list.watch_files events s) (sym reset))
              r,
        ),
      )
