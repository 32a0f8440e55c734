-- ===== src/Names/Laws.antt =====
-- The names that events have: when they can be computed, and what the operations on the registry
-- make of them.
use inotify_tools.Prelude.{
  ℕ, ◌≤◌, ◌<◌, ◌≡◌, ◌∙◌, refl, ap, Bytes, false, Option, none, some, List, [], ◌∷◌, ◌++◌, arith,
  ltb, if◌then◌else◌, length, take, drop, Option-cases, inl, inr, until_nul, take-append-drop,
  take_of_length-le, ◌≢◌,
}
use inotify_tools.Prelude.Ord.{nat_ord, bytes_ord}
use inotify_tools.Prelude.Word.{is_neg}
use inotify_tools.BTreeMap.{values, get, get-insert, get-or_insert}
use inotify_tools.Handle.{Inotifytools, Watch, EventPath}
use inotify_tools.Kernel.{Kernel}
use inotify_tools.Paths.{slash, rposition}
use inotify_tools.Registry.{
  watch, watch_from_wd, create_watch, replace_filename, replace_one, replace_each, rename, pick_wd,
  register, new_watch,
}
use inotify_tools.Registry.Invariant.{Inv}
use inotify_tools.Registry.Replace.{renamed, replace_filename_lem, replace_one_cases}
use inotify_tools.Names.{
  Event, filename_from_watch_id, filename_from_wd, dirname_len, filename_from_event,
}
use inotify_tools.Names.Total.{filename_from_wd_total}

rposition-lt : (c : ℕ) (b : Bytes) (i : ℕ) → rposition c b ≡ some i → i < length b
unfolding rposition
rposition-lt c [] i e = ground arith
rposition-lt c (x ∷ b) i e = elim (Option-cases (rposition c b)) [
  | inl f ↦ ground (arith, f)
  | inr (j, f) ↦ ground (arith, f, rposition-lt c b j f)
]

dirname_len-le : (l : Inotifytools) (name : Bytes) → dirname_len l name ≤ length name
unfolding dirname_len
dirname_len-le l name = elim (Option-cases (rposition slash name)) [
  | inl e ↦ ground (arith, e)
  | inr (i, e) ↦ ground (arith, e, rposition-lt slash name i e)
]

parts :
    (name : Bytes) (ev : Event) (n : ℕ)
    → n ≤ length name
    → take n name
        ++ (if ltb n (length name) then drop n name else if ltb 0 ev.len then ev.name else [])
      ≡ (if ltb n (length name) then name else name ++ (if ltb 0 ev.len then ev.name else []))
parts name ev n le =
    ground (arith, take-append-drop n name, λ (le : length name ≤ n). take_of_length-le n name le)

module _ {W : Type 0} (k : Kernel W) (l : Inotifytools) (v : Inv l) where
  -- In a handle that satisfies the invariant, the names of an event can be computed, without a
  -- panic, whatever its descriptor: the length of the directory part is at most that of the
  -- filename, and the directory part followed by the event's name is the whole filename, if the
  -- filename goes on behind the directory part, and otherwise the filename followed by the name
  -- that the event carries, if its length is not 0.
  pub filename_from_event_lem :
      (ev : Event) (s : W)
      → (path : EventPath) × (s' : W) × (filename_from_event k l ev s ≡ some (path, s'))
        × (path.dirnamelen ≤ length path.filename)
        × (take path.dirnamelen path.filename ++ path.eventname ≡ (
            if ltb path.dirnamelen (length path.filename)
            then path.filename
            else path.filename ++ (if ltb 0 ev.len then ev.name else [])))
  unfolding filename_from_event
  filename_from_event_lem ev s =
      let (name, s', e) = filename_from_wd_total k l v ev.wd s in
      let n = dirname_len l name in
      let eventname =
        if ltb n (length name) then drop n name else if ltb 0 ev.len then ev.name else [] in
      (
        record { filename = name; dirnamelen = n; eventname = eventname },
        s',
        ground (arith, e),
        dirname_len-le l name,
        parts name ev n (dirname_len-le l name),
      )

-- what renaming leaves
replace_one_keeps :
    (oldname newname : Bytes) (l : Inotifytools) (id : ℕ)
    → let l' = replace_one oldname newname l id in
      (l'.by_wd ≡ l.by_wd) × (l'.fanotify_mark_type ≡ l.fanotify_mark_type)
replace_one_keeps oldname newname l id = elim (replace_one_cases oldname newname l id) [
  | inl e ↦
      (ap (λ (l : Inotifytools). l.by_wd) e, ap (λ (l : Inotifytools). l.fanotify_mark_type) e)
  | inr (w, name, h, e) ↦
      unfold rename in
      (ap (λ (l : Inotifytools). l.by_wd) e, ap (λ (l : Inotifytools). l.fanotify_mark_type) e)
]

replace_each_keeps :
    (oldname newname : Bytes) (l : Inotifytools) (ids : List ℕ)
    → let l' = replace_each oldname newname l ids in
      (l'.by_wd ≡ l.by_wd) × (l'.fanotify_mark_type ≡ l.fanotify_mark_type)
unfolding replace_each
replace_each_keeps oldname newname l [] = (refl, refl)
replace_each_keeps oldname newname l (id ∷ ids) =
    let (e, f) = replace_each_keeps oldname newname (replace_one oldname newname l id) ids in
    let (e', f') = replace_one_keeps oldname newname l id in (e ∙ e', f ∙ f')

replace_filename_keeps :
    (oldname newname : Bytes) (l : Inotifytools)
    → let l' = replace_filename l oldname newname in
      (l'.by_wd ≡ l.by_wd) × (l'.fanotify_mark_type ≡ l.fanotify_mark_type)
unfolding replace_filename
replace_filename_keeps oldname newname l =
    let (e, f) = replace_each_keeps oldname newname l (values l.by_filename) in
    (ground (arith, e), ground (arith, f))

module _ {W : Type 0} (k : Kernel W) where
  -- the name of a watch that is found by its descriptor, where it is not resolved by its fid
  filename_from_wd_found :
      (l : Inotifytools) (wd id : ℕ) (w : Watch) (s : W)
      → wd ≢ 0
      → l.fanotify_mark_type ≡ 0
      → get wd l.by_wd ≡ some id
      → get id l.watches ≡ some w
      → filename_from_wd k l wd s ≡ some (w.filename, s)
  unfolding filename_from_wd filename_from_watch_id watch watch_from_wd
  filename_from_wd_found l wd id w s pos type e h = elim (Option-cases w.fid) [
    | inl f ↦ ground (arith, e, h, f, type)
    | inr (x, f) ↦ ground (arith, e, h, f, type)
  ]

  -- A watch that is created, outside fanotify, for a descriptor of the kernel that no other watch
  -- has gives its events its name, up to the first NUL.
  pub filename_from_wd-create_watch :
      (l : Inotifytools) (wd : ℕ) (fid : Option Bytes) (name : Bytes) (dirf : ℕ) (s : W)
      → wd ≢ 0
      → is_neg wd ≡ false
      → l.fanotify_mark_type ≡ 0
      → get wd l.by_wd ≡ none
      → filename_from_wd k (create_watch l wd fid name dirf).0 wd s ≡ some (until_nul name, s)
  unfolding until_nul new_watch
  filename_from_wd-create_watch l wd fid name dirf s pos fits type free =
      let l' = (create_watch l wd fid name dirf).0 in
      let w = new_watch wd fid name dirf in
      filename_from_wd_found l' wd l.next_id w s pos
        (unfold create_watch in
          unfold pick_wd in unfold register in ground (arith, pos, fits, type))
        (unfold create_watch in
          unfold pick_wd in
          unfold register in
          unfold new_watch in
          ground (arith, pos, fits, free, get-or_insert wd wd l.next_id l.by_wd))
        (unfold create_watch in
          unfold pick_wd in
          unfold register in
          unfold new_watch in
          ground (arith, pos, fits, free, get-insert l.next_id l.next_id w l.watches))

  -- After `replace_filename` with two names that are not empty, the name that the events of a watch
  -- have, outside fanotify, is the watch's name with the old prefix replaced by the new one (as it
  -- was, if it does not have the prefix), if the watch was found by its descriptor and its name.
  pub filename_from_wd-replace_filename :
      (l : Inotifytools) (oldname newname : Bytes) (wd id : ℕ) (w : Watch) (s : W)
      → Inv l
      → oldname ≢ []
      → newname ≢ []
      → wd ≢ 0
      → l.fanotify_mark_type ≡ 0
      → get wd l.by_wd ≡ some id
      → get id l.watches ≡ some w
      → get w.filename l.by_filename ≡ some id
      → filename_from_wd k (replace_filename l oldname newname) wd s
        ≡ some ((renamed oldname newname w).filename, s)
  filename_from_wd-replace_filename l oldname newname wd id w s v old_some new_some pos type e h n =
      let (wds, mark) = replace_filename_keeps oldname newname l in
      filename_from_wd_found (replace_filename l oldname newname) wd id (renamed oldname newname w)
        s pos (mark ∙ type) (ap (get wd) wds ∙ e)
        (replace_filename_lem l oldname newname id w v old_some new_some h ∙ ground (arith, n))
