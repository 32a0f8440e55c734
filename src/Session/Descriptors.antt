-- ===== src/Session/Descriptors.antt =====
-- The directory descriptors that watches hold, and those that were closed: the sum for a
-- descriptor over a handle.
use inotify_tools.Prelude.{
  ℕ, ◌+◌, ◌<◌, ◌≡◌, ◌∙◌, refl, ap, Bytes, Option, none, some, List, [], ◌∷◌, arith, ◌==◌,
  if◌then◌else◌, Option-cases, Bool-cases, inl, inr, is_some,
}
use inotify_tools.Prelude.Ord.{nat_ord, bytes_ord}
use inotify_tools.Prelude.Word.{is_neg}
use inotify_tools.BTreeMap.{BTreeMap, get, insert, remove, modify, values, eq_of_same}
use inotify_tools.BTreeMap.Once.{Once}
use inotify_tools.Fid.Fields.{key_ord}
use inotify_tools.Handle.{Inotifytools, Watch}
use inotify_tools.Registry.{
  close_watch, register, unregister, create_watch, new_watch, rename, replace_one, replace_each,
  replace_filename, watch_from_wd,
}
use inotify_tools.Registry.Replace.{replace_one_cases}
use inotify_tools.Counters.{record_stats, reset_each, initialize_stats}
use inotify_tools.Session.Keeps.{pick_wd_cases}
use inotify_tools.Registry.Invariant.{Inv, fresh_none}
use inotify_tools.Removal.{close_all, cleanup}

abbrev pub of_watch : ℕ → Watch → ℕ
of_watch d w = if w.dirf == d then 1 else 0

-- how many watches hold a descriptor
abbrev pub holding : ℕ → BTreeMap ℕ Watch → ℕ
holding d [] = 0
holding d ((id, w) ∷ m) = of_watch d w + holding d m

-- how often a descriptor was closed
abbrev pub times : ℕ → List ℕ → ℕ
times d [] = 0
times d (x ∷ xs) = let n = times d xs in if x == d then n + 1 else n

-- how many times a descriptor is held or was closed
abbrev pub balance : ℕ → Inotifytools → ℕ
balance d l = holding d l.watches + times d l.closed

module _ (d : ℕ) where
  holding-insert :
      (id : ℕ) (w : Watch) (m : BTreeMap ℕ Watch)
      → get id m ≡ none
      → holding d (insert id w m) ≡ of_watch d w + holding d m
  unfolding insert get
  holding-insert id w [] h = refl
  holding-insert id w ((j, u) ∷ m) h = ground (arith, h, holding-insert id w m)

  holding-remove-none :
      (id : ℕ) (m : BTreeMap ℕ Watch) → get id m ≡ none → holding d (remove id m) ≡ holding d m
  unfolding remove get
  holding-remove-none id [] h = refl
  holding-remove-none id ((j, u) ∷ m) h = ground (arith, h, holding-remove-none id m)

  holding-remove :
      (id : ℕ) (w : Watch) (m : BTreeMap ℕ Watch)
      → Once m
      → get id m ≡ some w
      → of_watch d w + holding d (remove id m) ≡ holding d m
  unfolding remove get
  holding-remove id w [] u h = absurd (ground arith)
  holding-remove id w ((j, v) ∷ m) u h =
      ground (arith, h, u.0, eq_of_same id j, holding-remove-none id m, holding-remove id w m u.1)

  pub holding-modify :
      (id : ℕ) (f : Watch → Watch) (m : BTreeMap ℕ Watch)
      → ((w : Watch) → (f w).dirf ≡ w.dirf)
      → holding d (modify id f m) ≡ holding d m
  unfolding modify
  holding-modify id f [] same = refl
  holding-modify id f ((j, v) ∷ m) same = ground (arith, same v, holding-modify id f m same)

  module _ (real : 0 < d) where
    times-close_watch :
        (w : Watch) (closed : List ℕ)
        → times d (close_watch w closed) ≡ of_watch d w + times d closed
    unfolding close_watch
    times-close_watch w closed = ground (arith, real)

    times-close_all :
        (m : BTreeMap ℕ Watch) (closed : List ℕ)
        → times d (close_all m closed) ≡ holding d m + times d closed
    unfolding close_all
    times-close_all [] closed = omega arith
    times-close_all ((id, w) ∷ m) closed =
        omega (arith, times-close_all m (close_watch w closed), times-close_watch w closed)

    register-balance :
        (l : Inotifytools) (w : Watch)
        → get l.next_id l.watches ≡ none
        → balance d (register l w) ≡ of_watch d w + balance d l
    unfolding register
    register-balance l w free =
        ground (arith, holding-insert l.next_id w l.watches free, times-close_watch w l.closed)

    pub unregister-balance :
        (l : Inotifytools) (id : ℕ) (w : Watch)
        → Inv l
        → get id l.watches ≡ some w
        → balance d (unregister l id w) ≡ balance d l
    unfolding unregister
    unregister-balance l id w v h =
        omega (arith, holding-remove id w l.watches v.watches_once h, times-close_watch w l.closed)

    pub cleanup-balance :
        (l : Inotifytools)
        → balance d (cleanup l)
          ≡ balance d l + (if l.initialized then (if l.fd == d then 1 else 0) else 0)
    unfolding cleanup
    cleanup-balance l = ground (arith, times-close_all l.watches (l.fd ∷ l.closed))

    -- a watch that is created holds its descriptor, or it is closed at once
    pub create_watch-balance :
        (l : Inotifytools) (wd : ℕ) (fid : Option Bytes) (name : Bytes) (dirf : ℕ)
        → Inv l
        → balance d (create_watch l wd fid name dirf).0
          ≡ balance d l
            + (if is_some (create_watch l wd fid name dirf).1
                then (if dirf == d then 1 else 0)
                else 0)
    unfolding create_watch new_watch
    create_watch-balance l wd fid name dirf v = elim (Bool-cases (is_neg wd)) [
      | inl neg ↦ ground (arith, neg)
      | inr pos ↦ elim (pick_wd_cases l wd) [
        | inl e ↦ ground (arith, pos, e)
        | inr (w, n, e) ↦
            let l' = record l { next_fanotify_wd = n } in
            rw (create_watch, pos, e)
              (omega (arith, register-balance l' (new_watch w fid name dirf) (fresh_none l v)))
      ]
    ]

  pub rename-balance :
      (l : Inotifytools) (id : ℕ) (w : Watch) (name : Bytes)
      → balance d (rename l id w name) ≡ balance d l
  unfolding rename
  rename-balance l id w name =
      ap (λ (n : ℕ). n + times d l.closed) (holding-modify id _ l.watches (λ w. refl))

  replace_each-balance :
      (old name : Bytes) (ids : List ℕ) (l : Inotifytools)
      → balance d (replace_each old name l ids) ≡ balance d l
  unfolding replace_each
  replace_each-balance old name [] l = refl
  replace_each-balance old name (id ∷ ids) l =
      replace_each-balance old name ids (replace_one old name l id)
      ∙ elim (replace_one_cases old name l id) [
        | inl e ↦ ap (balance d) e
        | inr (w, n, h, e) ↦ ap (balance d) e ∙ rename-balance l id w n
      ]

  pub replace_filename-balance :
      (l : Inotifytools) (old name : Bytes) → balance d (replace_filename l old name) ≡ balance d l
  unfolding replace_filename
  replace_filename-balance l old name =
      ground (arith, replace_each-balance old name (values l.by_filename) l)

  pub record_stats-balance :
      (l : Inotifytools) (wd mask : ℕ) → balance d (record_stats l wd mask) ≡ balance d l
  unfolding record_stats watch_from_wd
  record_stats-balance l wd mask = elim (Option-cases (get wd l.by_wd)) [
    | inl e ↦ rw (record_stats, e) refl
    | inr (id, e) ↦
        rw (record_stats, e)
          (ap (λ (n : ℕ). n + times d l.closed) (holding-modify id _ l.watches (λ w. refl)))
  ]

  reset_each-balance :
      (ids : List ℕ) (l : Inotifytools) → balance d (reset_each ids l) ≡ balance d l
  unfolding reset_each
  reset_each-balance [] l = refl
  reset_each-balance (id ∷ ids) l =
      reset_each-balance ids _
      ∙ ap (λ (n : ℕ). n + times d l.closed) (holding-modify id _ l.watches (λ w. refl))

  pub initialize_stats-balance : (l : Inotifytools) → balance d (initialize_stats l) ≡ balance d l
  unfolding initialize_stats
  initialize_stats-balance l = ground (arith, reset_each-balance (values l.by_wd) l)
