-- ===== src/Registry.antt =====
-- libinotifytools/src/inotify.rs, "Watch bookkeeping": the watches and their three indexes.
pub mod Invariant
pub mod FreshWd
pub mod Replace
use inotify_tools.Prelude.{
  ℕ, zero, suc, ◌+◌, ◌%◌, Bytes, Bool, true, false, ◌&&◌, not, Option, none, some, List, [], ◌∷◌,
  ◌++◌, ◌==◌, if◌then◌else◌, is_some, is_none, length, drop, is_empty, eqb, starts_with, until_nul,
}
use inotify_tools.Prelude.Ord.{nat_ord, bytes_ord}
use inotify_tools.Prelude.Word.{is_neg, le_zero, wrapping_inc, minus_one, u32_mod, u64_mod}
use inotify_tools.BTreeMap.{BTreeMap, get, insert, or_insert, remove, modify, values}
use inotify_tools.Stats.{no_events}
use inotify_tools.Fid.{FidKey, fid_key}
use inotify_tools.Fid.Fields.{key_ord}
use inotify_tools.Handle.{Inotifytools, Watch, ◌>>=◌}

unfoldable pub watch_from_wd : Inotifytools → ℕ → Option ℕ
watch_from_wd l wd = get wd l.by_wd

unfoldable pub watch_from_fid : Inotifytools → Bytes → Option ℕ
watch_from_fid l f = get (fid_key f) l.by_fid

unfoldable pub watch_from_filename : Inotifytools → Bytes → Option ℕ
watch_from_filename l filename = get filename l.by_filename

-- `&self.watches[&id]`, which panics on a missing id
unfoldable pub watch : Inotifytools → ℕ → Option Watch
watch l id = get id l.watches

-- One round of the loop of `create_watch`: the next positive watch descriptor.
unfoldable pub advance : ℕ → ℕ
advance w = let w' = wrapping_inc w in if le_zero w' then 1 else w'

-- The loop of `create_watch`, on fuel: the first descriptor after `w` that has no watch.
unfoldable pub next_free : ℕ → ℕ → List (ℕ × ℕ) → Option ℕ
next_free zero w by_wd = none
next_free (suc fuel) w by_wd =
    let w' = advance w in
    let rest = next_free fuel w' by_wd in if is_some (get w' by_wd) then rest else some w'

-- the descriptor of a new watch: the kernel's, or the next free one for fanotify (which has 0)
unfoldable pub pick_wd : Inotifytools → ℕ → Option (ℕ × Inotifytools)
unfolding next_free advance
pick_wd l wd =
    if wd == 0
    then elim (next_free (suc (length l.by_wd)) l.next_fanotify_wd l.by_wd) [
      | none ↦ none
      | some w ↦ some (w, record l { next_fanotify_wd = w })
    ]
    else some (wd, l)

-- `Drop for Watch`
unfoldable pub close_watch : Watch → List ℕ → List ℕ
close_watch w closed = if w.dirf == 0 then closed else w.dirf ∷ closed

-- The key of a watch in the index by fid; a watch without a fid has none.
abbrev pub key_of : Option Bytes → Option FidKey
key_of none = none
key_of (some f) = some (fid_key f)

-- the three steps at `by_fid`: is the entry vacant, insert if so, and remove
unfoldable pub fid_vacant : Option Bytes → BTreeMap FidKey ℕ → Bool
fid_vacant none m = false
fid_vacant (some f) m = is_none (get (fid_key f) m)

unfoldable pub index_fid : Option Bytes → ℕ → BTreeMap FidKey ℕ → BTreeMap FidKey ℕ
index_fid none id m = m
index_fid (some f) id m = or_insert (fid_key f) id m

unfoldable pub unindex_fid : Option Bytes → BTreeMap FidKey ℕ → BTreeMap FidKey ℕ
unindex_fid none m = m
unindex_fid (some f) m = remove (fid_key f) m

-- The part of `create_watch` below the choice of the descriptor: an entry is inserted into each
-- index that has none for its key, and a watch that no index took is dropped again.
unfoldable pub register : Inotifytools → Watch → Inotifytools
unfolding close_watch fid_vacant index_fid
register l w =
    let id = l.next_id in
    let in_wd = is_none (get w.wd l.by_wd) in
    let in_fid = fid_vacant w.fid l.by_fid in
    let in_name = is_none (get w.filename l.by_filename) in
    let inserted = if in_wd then true else if in_fid then true else in_name in
    record l {
      next_id = (id + 1) % u64_mod;
      by_wd = or_insert w.wd id l.by_wd;
      by_fid = index_fid w.fid id l.by_fid;
      by_filename = or_insert w.filename id l.by_filename;
      watches = if inserted then insert id w l.watches else l.watches;
      closed = if inserted then l.closed else close_watch w l.closed;
    }

-- the value that `create_watch` boxes; `cstring` cuts the name at its first NUL
unfoldable pub new_watch : ℕ → Option Bytes → Bytes → ℕ → Watch
new_watch wd fid filename dirf = record {
  fid = fid;
  filename = until_nul filename;
  wd = wd;
  dirf = dirf;
  stats = no_events;
}

unfoldable pub create_watch : Inotifytools → ℕ → Option Bytes → Bytes → ℕ → Inotifytools × Option ℕ
unfolding pick_wd register new_watch
create_watch l wd fid filename dirf = if is_neg wd then (l, none) else elim (pick_wd l wd) [
  | none ↦ (l, none)
  | some (wd', l') ↦ (register l' (new_watch wd' fid filename dirf), some wd')
]

-- Removes by the watch's keys, whichever watch they lead to.
unfoldable pub unregister : Inotifytools → ℕ → Watch → Inotifytools
unfolding close_watch unindex_fid
unregister l id w = record l {
  by_wd = remove w.wd l.by_wd;
  by_fid = unindex_fid w.fid l.by_fid;
  by_filename = remove w.filename l.by_filename;
  watches = remove id l.watches;
  closed = close_watch w l.closed;
}

unfoldable pub destroy_watch : Inotifytools → ℕ → Option Inotifytools
unfolding watch unregister
destroy_watch l id = do w ← watch l id; some (unregister l id w)

-- `rename_watch`, once the watch and its old name are read
unfoldable pub rename : Inotifytools → ℕ → Watch → Bytes → Inotifytools
rename l id w newname =
    let newname = until_nul newname in
    let mine : Bool = elim (get w.filename l.by_filename) [ none ↦ false | some j ↦ j == id ] in
    record l {
      by_filename =
          or_insert newname id (if mine then remove w.filename l.by_filename else l.by_filename);
      watches = modify id (λ w. record w { filename = newname }) l.watches;
    }

unfoldable pub rename_watch : Inotifytools → ℕ → Bytes → Option Inotifytools
unfolding watch rename
rename_watch l id newname = do w ← watch l id; some (rename l id w newname)

unfoldable pub wd_from_filename : Inotifytools → Bytes → Option ℕ
unfolding watch watch_from_filename
wd_from_filename l filename =
    if is_empty filename then some minus_one else elim (watch_from_filename l filename) [
      | none ↦ some minus_one
      | some id ↦ do w ← watch l id; some w.wd
    ]

unfoldable pub set_filename_by_wd : Inotifytools → ℕ → Bytes → Option Inotifytools
unfolding watch_from_wd rename_watch
set_filename_by_wd l wd filename = elim (watch_from_wd l wd) [
  | none ↦ some l
  | some id ↦ rename_watch l id filename
]

unfoldable pub set_filename_by_filename : Inotifytools → Bytes → Bytes → Option Inotifytools
unfolding watch_from_filename rename_watch
set_filename_by_filename l oldname newname = elim (watch_from_filename l oldname) [
  | none ↦ some l
  | some id ↦ rename_watch l id newname
]

-- The name that `replace_filename` gives to a watch named `cur`, if it renames it.
unfoldable pub replaced : Bytes → Bytes → Bytes → Option Bytes
replaced oldname newname cur =
    if starts_with cur oldname && not (eqb cur newname)
    then some (newname ++ drop (length oldname) cur)
    else none

-- the body of the loop of `replace_filename`
unfoldable pub replace_one : Bytes → Bytes → Inotifytools → ℕ → Inotifytools
unfolding watch replaced rename
replace_one oldname newname l id = elim (watch l id) [
  | none ↦ l
  | some w ↦ elim (replaced oldname newname w.filename) [
    | none ↦ l
    | some name ↦ rename l id w name
  ]
]

unfoldable pub replace_each : Bytes → Bytes → Inotifytools → List ℕ → Inotifytools
unfolding replace_one
replace_each oldname newname l [] = l
replace_each oldname newname l (id ∷ ids) =
    replace_each oldname newname (replace_one oldname newname l id) ids

unfoldable pub replace_filename : Inotifytools → Bytes → Bytes → Inotifytools
unfolding replace_each
replace_filename l oldname newname =
    if is_empty oldname
    then l
    else if is_empty newname
    then l
    else replace_each oldname newname l (values l.by_filename)

-- `as c_int`
unfoldable pub get_num_watches : Inotifytools → ℕ
get_num_watches l = length l.by_filename % u32_mod
