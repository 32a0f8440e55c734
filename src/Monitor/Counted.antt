-- ===== src/Monitor/Counted.antt =====
-- What counting the events of a batch leaves of what the report of inotifywatch reads.
use inotify_tools.Prelude.{
  sym, ap, Bool, true, false, if◌then◌else◌, Bool-cases, ℕ, ◌<◌, ◌≡◌, ◌∙◌, refl, List, [], ◌∷◌,
  arith, some, ◌==◌, Option-cases, inl, inr,
}
use inotify_tools.Prelude.Ord.{nat_ord}
use inotify_tools.BTreeMap.{get, modify, get-modify, same}
use inotify_tools.Counters.{record_stats}
use inotify_tools.Registry.Invariant.{Inv}
use inotify_tools.Session.Keeps.{Inv-of_same, record_stats-Inv}
use inotify_tools.Prelude.Word.{u32_mod}
use inotify_tools.Handle.{Inotifytools, Watch}
use inotify_tools.Names.{Event}
use inotify_tools.Reader.Remaining.{counted, counted_all}
use inotify_tools.Report.Layout.{AreU32}
use inotify_tools.Stats as Stats
use inotify_tools.Stats.{WatchStats, record_event}
use inotify_tools.Stats.Record.{bump, get-record_event}

-- what counting leaves, of what the report reads
abbrev pub Counts : Inotifytools → Inotifytools → Type 0
Counts l l' =
    Inv l' × AreU32 l' × (l'.fanotify_mark_type ≡ l.fanotify_mark_type) × (l'.by_wd ≡ l.by_wd)

record_event-AreU32 :
    (s : WatchStats) (mask event n : ℕ)
    → ((c : ℕ) → Stats.get s event ≡ some c → c < u32_mod)
    → Stats.get (record_event s mask) event ≡ some n
    → n < u32_mod
record_event-AreU32 s mask event n fit h =
    let e : bump event mask (Stats.get s event) ≡ some n =
      sym (get-record_event s mask event) ∙ h in
    elim (Option-cases (Stats.get s event)) [
      | inl f ↦ absurd (ground (arith, e, f))
      | inr (c, f) ↦ ground (arith, e, f, fit c f)
    ]

modify-AreU32 :
    (l : Inotifytools) (id mask : ℕ)
    → AreU32 l
    → AreU32 (record l {
      watches = modify id (λ w. record w { stats = record_event w.stats mask }) l.watches;
    })
modify-AreU32 l id mask fit j w event n live known = elim (Option-cases (get j l.watches)) [
  | inl e ↦ absurd (ground (arith, live, e, get-modify id j counting l.watches))
  | inr (u, e) ↦ elim (Bool-cases (j == id)) [
    | inr other ↦
        fit j w event n
          (ground (arith, live, e, other, same_eq j id, get-modify id j counting l.watches)) known
    | inl this ↦
        let is : w.stats ≡ record_event u.stats mask =
          ground (arith, live, e, this, same_eq j id, get-modify id j counting l.watches) in
        record_event-AreU32 u.stats mask event n (λ c. fit j u event c e)
          (ap (λ (x : WatchStats). Stats.get x event) (sym is) ∙ known)
  ]
]
  where
    counting : Watch → Watch
    counting w = record w { stats = record_event w.stats mask }

    same_eq : (a b : ℕ) → same a b ≡ (a == b)
    same_eq a b = ground arith

AreU32-of_watches : (l l' : Inotifytools) → l'.watches ≡ l.watches → AreU32 l → AreU32 l'
AreU32-of_watches l l' same_watches fit id w event n live =
    fit id w event n (ap (get id) (sym same_watches) ∙ live)

record_stats-Counts :
    (l : Inotifytools) (wd mask : ℕ) → Inv l → AreU32 l → Counts l (record_stats l wd mask)
record_stats-Counts l wd mask v fit = elim (Option-cases (get wd l.by_wd)) [
  | inl f ↦ (
    record_stats-Inv l wd mask v,
    AreU32-of_watches l (record_stats l wd mask) (unfold record_stats in ground (arith, f)) fit,
    unfold record_stats in ground (arith, f),
    unfold record_stats in ground (arith, f),
  )
  | inr (id, f) ↦ (
    record_stats-Inv l wd mask v,
    AreU32-of_watches
        (record l {
          watches = modify id (λ w. record w { stats = record_event w.stats mask }) l.watches;
        })
        (record_stats l wd mask) (unfold record_stats in ground (arith, f))
        (modify-AreU32 l id mask fit),
    unfold record_stats in ground (arith, f),
    unfold record_stats in ground (arith, f),
  )
]

either-Counts :
    (b : Bool) (l l' l'' : Inotifytools)
    → Counts l l'
    → Counts l l''
    → Counts l (if b then l' else l'')
either-Counts true l l' l'' c d = c
either-Counts false l l' l'' c d = d

counted-Counts : (l : Inotifytools) (ev : Event) → Inv l → AreU32 l → Counts l (counted l ev)
counted-Counts l ev v fit =
    either-Counts l.collect_stats l (record_stats l ev.wd ev.mask) l
      (record_stats-Counts l ev.wd ev.mask v fit) (v, fit, refl, refl)

pub counted_all-Counts :
    (evs : List Event) (l : Inotifytools) → Inv l → AreU32 l → Counts l (counted_all l evs)
counted_all-Counts [] l v fit = (v, fit, refl, refl)
counted_all-Counts (ev ∷ evs) l v fit =
    let l0 : Inotifytools = record l { error = 0 } in
    let (v1, f1, m1, w1) = counted-Counts l0 ev (Inv-of_same l l0 refl refl refl refl refl v) fit in
    let (v2, f2, m2, w2) = counted_all-Counts evs (counted l0 ev) v1 f1 in
    (v2, f2, m2 ∙ m1, w2 ∙ w1)
