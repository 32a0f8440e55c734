-- ===== src/Session/Keeps.antt =====
-- The operations that ask nothing of the system keep the registry's invariant.
use inotify_tools.Prelude.{
  ℕ, suc, ◌+◌, ◌≤◌, ◌<◌, ◌≡◌, refl, Bytes, Option, none, some, List, [], ◌∷◌, arith, length,
  Option-cases, Bool-cases, inl, inr, ◌⊎◌, ap, ◌==◌,
}
use inotify_tools.Prelude.Ord.{nat_ord, bytes_ord}
use inotify_tools.Prelude.Word.{u64_mod, is_neg}
use inotify_tools.BTreeMap.{get, modify, values, get-modify}
use inotify_tools.BTreeMap.Once.{modify-Once}
use inotify_tools.Stats.{no_events, record_event}
use inotify_tools.Fid.Fields.{key_ord}
use inotify_tools.Handle.{Inotifytools, Watch}
use inotify_tools.Registry.{
  watch_from_wd, next_free, pick_wd, new_watch, register, create_watch, replace_filename,
  replace_one, replace_each, rename,
}
use inotify_tools.Registry.Invariant.{Inv, wd_of, fid_of, filename_of, register-Inv}
use inotify_tools.Registry.Replace.{replace_one_cases}
use inotify_tools.Removal.{cleanup}
use inotify_tools.Counters.{record_stats, reset_each, initialize_stats}

-- The invariant speaks of the maps and of `next_id` alone.
pub Inv-of_same :
    (l l' : Inotifytools)
    → l'.by_wd ≡ l.by_wd
    → l'.by_fid ≡ l.by_fid
    → l'.by_filename ≡ l.by_filename
    → l'.watches ≡ l.watches
    → l'.next_id ≡ l.next_id
    → Inv l
    → Inv l'
Inv-of_same l l' wds fids names ws next v = record {
  wd_index = λ k id. rw (wds, ws) (v.wd_index k id);
  fid_index = λ k id. rw (fids, ws) (v.fid_index k id);
  name_index = λ k id. rw (names, ws) (v.name_index k id);
  fresh = λ id w. rw (ws, next) (v.fresh id w);
  wds_once = rw wds v.wds_once;
  names_once = rw names v.names_once;
  watches_once = rw ws v.watches_once;
}

-- a change of a watch that leaves its keys alone
modify-Inv :
    (l : Inotifytools) (id : ℕ) (f : Watch → Watch)
    → ((w : Watch) → ((f w).wd ≡ w.wd) × ((f w).fid ≡ w.fid) × ((f w).filename ≡ w.filename))
    → Inv l
    → Inv (record l { watches = modify id f l.watches })
modify-Inv l id f same v = record {
  wd_index = λ k j h. rw (kept j).0 (v.wd_index k j h);
  fid_index = λ k j h. rw (kept j).1 (v.fid_index k j h);
  name_index = λ k j h. rw (kept j).2 (v.name_index k j h);
  fresh = λ j w h. older j w h (Option-cases (get j l.watches));
  wds_once = v.wds_once;
  names_once = v.names_once;
  watches_once = modify-Once id f l.watches v.watches_once;
}
  where
    l' : Inotifytools
    l' = record l { watches = modify id f l.watches }

    kept_at :
        (j : ℕ)
        → (get j l.watches ≡ none) ⊎ ((w : Watch) × (get j l.watches ≡ some w))
        → (wd_of l' j ≡ wd_of l j)
          × (fid_of l' j ≡ fid_of l j)
          × (filename_of l' j ≡ filename_of l j)
    kept_at j (inl e) = ground (arith, e, get-modify id j f l.watches)
    kept_at j (inr (w, e)) = ground (arith, e, same w, get-modify id j f l.watches)

    kept :
        (j : ℕ)
        → (wd_of l' j ≡ wd_of l j)
          × (fid_of l' j ≡ fid_of l j)
          × (filename_of l' j ≡ filename_of l j)
    kept j = kept_at j (Option-cases (get j l.watches))

    older :
        (j : ℕ) (w : Watch)
        → get j (modify id f l.watches) ≡ some w
        → (get j l.watches ≡ none) ⊎ ((w : Watch) × (get j l.watches ≡ some w))
        → j < l.next_id
    older j w h (inl e) = absurd (ground (arith, e, h, get-modify id j f l.watches))
    older j w h (inr (u, e)) = v.fresh j u e

pub record_stats-Inv : (l : Inotifytools) (wd mask : ℕ) → Inv l → Inv (record_stats l wd mask)
unfolding record_stats watch_from_wd
record_stats-Inv l wd mask v = elim (Option-cases (get wd l.by_wd)) [
  | inl e ↦ rw (e, record_stats) v
  | inr (id, e) ↦
      rw (e, record_stats)
        (Inv-of_same (record l { watches = modify id _ l.watches }) _ refl refl refl refl refl
          (modify-Inv l id (λ w. record w { stats = record_event w.stats mask })
            (λ w. (refl, refl, refl)) v))
]

reset_each-Inv : (ids : List ℕ) (l : Inotifytools) → Inv l → Inv (reset_each ids l)
unfolding reset_each
reset_each-Inv [] l v = v
reset_each-Inv (id ∷ ids) l v =
    reset_each-Inv ids _
      (modify-Inv l id (λ w. record w { stats = no_events }) (λ w. (refl, refl, refl)) v)

pub reset_each-next_id : (ids : List ℕ) (l : Inotifytools) → (reset_each ids l).next_id ≡ l.next_id
unfolding reset_each
reset_each-next_id [] l = refl
reset_each-next_id (id ∷ ids) l = reset_each-next_id ids _

pub initialize_stats-Inv : (l : Inotifytools) → Inv l → Inv (initialize_stats l)
unfolding initialize_stats
initialize_stats-Inv l v = elim (Bool-cases l.collect_stats) [
  | inl e ↦
      Inv-of_same (reset_each (values l.by_wd) l) _ (ground (arith, e)) (ground (arith, e))
        (ground (arith, e)) (ground (arith, e)) (ground (arith, e))
        (reset_each-Inv (values l.by_wd) l v)
  | inr e ↦
      Inv-of_same l _ (ground (arith, e)) (ground (arith, e)) (ground (arith, e))
        (ground (arith, e)) (ground (arith, e)) v
]

-- a registry with no index entries and no watches
empty-Inv :
    (l : Inotifytools) → l.by_wd ≡ [] → l.by_fid ≡ [] → l.by_filename ≡ [] → l.watches ≡ [] → Inv l
unfolding get
empty-Inv l wds fids names ws = record {
  wd_index = λ k id h. absurd (ground (arith, ap (get k) wds));
  fid_index = λ k id h. absurd (ground (arith, ap (get k) fids));
  name_index = λ k id h. absurd (ground (arith, ap (get k) names));
  fresh = λ id w h. absurd (ground (arith, ap (get id) ws));
  wds_once = rw wds tt;
  names_once = rw names tt;
  watches_once = rw ws tt;
}

pub cleanup-Inv : (l : Inotifytools) → Inv l → Inv (cleanup l)
unfolding cleanup
cleanup-Inv l v = elim (Bool-cases l.initialized) [
  | inl e ↦
      empty-Inv (cleanup l) (ground (arith, e)) (ground (arith, e)) (ground (arith, e))
        (ground (arith, e))
  | inr e ↦
      Inv-of_same l _ (ground (arith, e)) (ground (arith, e)) (ground (arith, e))
        (ground (arith, e)) (ground (arith, e)) v
]

-- indexes may be emptied while watches remain
pub unindexed-Inv :
    (l l' : Inotifytools)
    → l'.by_wd ≡ []
    → l'.by_fid ≡ []
    → l'.by_filename ≡ []
    → l'.watches ≡ l.watches
    → l'.next_id ≡ l.next_id
    → Inv l
    → Inv l'
unfolding get
unindexed-Inv l l' wds fids names ws next v = record {
  wd_index = λ k id h. absurd (ground (arith, ap (get k) wds));
  fid_index = λ k id h. absurd (ground (arith, ap (get k) fids));
  name_index = λ k id h. absurd (ground (arith, ap (get k) names));
  fresh = λ id w. rw (ws, next) (v.fresh id w);
  wds_once = rw wds tt;
  names_once = rw names tt;
  watches_once = rw ws v.watches_once;
}

pub pick_wd_cases :
    (l : Inotifytools) (wd : ℕ)
    → (pick_wd l wd ≡ none)
      ⊎ ((w : ℕ) × (n : ℕ) × (pick_wd l wd ≡ some (w, record l { next_fanotify_wd = n })))
unfolding pick_wd
pick_wd_cases l wd = elim (Bool-cases (wd == 0)) [
  | inl e ↦ elim (Option-cases (next_free (suc (length l.by_wd)) l.next_fanotify_wd l.by_wd)) [
    | inl e' ↦ inl (ground (arith, e, e'))
    | inr (w, e') ↦ inr (w, w, ground (arith, e, e'))
  ]
  | inr e ↦ inr (wd, l.next_fanotify_wd, ground (arith, e))
]

pub create_watch-Inv :
    (l : Inotifytools) (wd : ℕ) (fid : Option Bytes) (filename : Bytes) (dirf : ℕ)
    → l.next_id + 1 < u64_mod
    → Inv l
    → Inv (create_watch l wd fid filename dirf).0
      × ((create_watch l wd fid filename dirf).0.next_id ≤ l.next_id + 1)
unfolding create_watch
create_watch-Inv l wd fid filename dirf room v = elim (Bool-cases (is_neg wd)) [
  | inl neg ↦ rw (neg, create_watch) (v, omega arith)
  | inr pos ↦ elim (pick_wd_cases l wd) [
    | inl e ↦ rw (pos, e, create_watch) (v, omega arith)
    | inr (w, n, e) ↦
        rw (pos, e, create_watch)
          (
            register-Inv _ (new_watch w fid filename dirf) room
                (Inv-of_same l _ refl refl refl refl refl v),
            unfold register in omega arith,
          )
  ]
]

replace_each-next_id :
    (old name : Bytes) (ids : List ℕ) (l : Inotifytools)
    → (replace_each old name l ids).next_id ≡ l.next_id
unfolding replace_each rename
replace_each-next_id old name [] l = refl
replace_each-next_id old name (id ∷ ids) l = ground (
  arith,
  replace_one_cases old name l id,
  replace_each-next_id old name ids (replace_one old name l id),
)

pub replace_filename-next_id :
    (l : Inotifytools) (old name : Bytes) → (replace_filename l old name).next_id ≡ l.next_id
unfolding replace_filename
replace_filename-next_id l old name =
    ground (arith, replace_each-next_id old name (values l.by_filename) l)
