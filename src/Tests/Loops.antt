-- ===== src/Tests/Loops.antt =====
-- The theorems on the loop of inotifywait and on the table of inotifywatch.
use inotify_tools.Prelude.{
  ℕ, ◌+◌, ◌*◌, ◌<◌, ◌≡◌, ◌∙◌, sym, ap, inl, inr, Option-cases, refl, Bytes, true, false, some, List,
  [], ◌∷◌, ◌++◌, arith, ◌==◌, if◌then◌else◌, All, map,
}
use mathlib.Core.List.{Perm}
use inotify_tools.Prelude.Ord.{nat_ord}
use inotify_tools.Prelude.Buffer.{codes}
use inotify_tools.BTreeMap.{get, values}
use inotify_tools.Counters.{get_stat_total, record_stats, initialize_stats}
use inotify_tools.Events.{str_to_event_sep}
use inotify_tools.Prelude.Word.{u32_mod}
use inotify_tools.Registry.Invariant.{Inv}
use inotify_tools.Report.Layout.{heading, Picked, Rows, AreU32}
use inotify_tools.Session.Keeps.{record_stats-Inv, initialize_stats-Inv}
use inotify_tools.Stats as Stats
use inotify_tools.Stats.{WatchStats, no_events, record_event}
use inotify_tools.Stats.Record.{bump, get-record_event, get-no_events}
use inotify_tools.Counters.Sorted.{IsSorted}
use inotify_tools.Handle.{Inotifytools, Watch, new}
use inotify_tools.Kernel.{Kernel}
use inotify_tools.Monitor.{wait_loop, exit_timeout}
use inotify_tools.Monitor.Batches.{wait_loop_lem}
use inotify_tools.Monitor.Rounds.{quiet, seen}
use inotify_tools.Options.Wait as Wait
use inotify_tools.Options.Watch as Watch
use inotify_tools.Reader.{Reader, new_reader, cap}
use inotify_tools.Reader.Remaining.{encodes}
use inotify_tools.Reader.Wire.{length-replicate}
use inotify_tools.Report.{Column, columns, print_info}
use inotify_tools.Report.Table.{text, print_info_lem}
use inotify_tools.Tests.Events.{created, moved, created-IsEvent, moved-IsEvent, no_match}
use inotify_tools.Tests.Registry.{handle, handle-Inv, system}

-- a system with a batch of the two events, and then none
abbrev once : Kernel ℕ
once = record system {
  ppoll = λ fd timeout s. (if s == 0 then 1 else 0, s + 1);
  fionread = λ fd s. (some 48, s + 10);
  read = λ fd size s. (some (encodes (created ∷ moved ∷ [])), s + 100);
}

abbrev monitoring : Wait.Opts
monitoring = record (Wait.defaults 5 false) { monitor = true }

abbrev text_of : ℕ → Bytes
text_of e = codes "error"

wait_loop_lem_example :
    (r' : Reader) × (wait_loop once no_match text_of 3 2 monitoring 0x1c0 0x1c0
        (quiet new_reader [] 0)
      ≡ some (exit_timeout, quiet r' (seen monitoring 0x1c0 (created ∷ moved ∷ [])) 112))
unfolding Wait.defaults new_reader new
wait_loop_lem_example =
    wait_loop_lem once no_match text_of 0 0x1c0 0x1c0 monitoring refl refl refl new_reader created
      (moved ∷ []) 0 refl refl refl (omega arith) (omega (arith, length-replicate (2 * cap) 0))
      (created-IsEvent, (moved-IsEvent, tt))
      (record { polled = refl; waiting = 48; asked = refl; enough = refl; got = refl }) refl

abbrev watching : Watch.Opts
watching = record (Watch.defaults 5 false) { events = 0xfff; zero = 1 }

-- the handle once it has counted an event of its watch
abbrev active : Inotifytools
active = record_stats (initialize_stats handle) 1 2

active-Inv : Inv active
active-Inv = record_stats-Inv (initialize_stats handle) 1 2 (initialize_stats-Inv handle handle-Inv)

active-AreU32 : AreU32 active
unfolding inotify_tools.Registry.create_watch new inotify_tools.Registry.pick_wd
    inotify_tools.Registry.register inotify_tools.Registry.new_watch get
    inotify_tools.BTreeMap.insert inotify_tools.BTreeMap.or_insert record_stats initialize_stats
    inotify_tools.Registry.watch_from_wd inotify_tools.BTreeMap.modify
active-AreU32 id w event n live known =
    let one : w.stats ≡ record_event no_events 2 = ground (arith, live) in
    let read : Stats.get (record_event no_events 2) event ≡ some n =
      ap (λ (x : WatchStats). Stats.get x event) (sym one) ∙ known in
    counted event n (sym (get-record_event no_events 2 event) ∙ read)
  where
    counted : (event n : ℕ) → bump event 2 (Stats.get no_events event) ≡ some n → n < u32_mod
    counted event n h = elim (Option-cases (Stats.get no_events event)) [
      | inl e ↦ absurd (ground (arith, e, h))
      | inr (c, e) ↦ ground (arith, e, h, get-no_events event c e)
    ]

print_info_lem_example :
    (shown : List Column) × (ws : List (ℕ × Watch)) × (ts : List Bytes) × (print_info system active
        watching 0
      ≡ some (if get_stat_total active 0 == 0 then [] else heading shown ++ text ts, 0))
    × Picked active watching columns shown
    × All (λ c. str_to_event_sep (some c.header) b',' ≡ c.event) shown
    × Rows watching.zero shown ws ts
    × Perm (map (λ p. p.0) ws) (values active.by_wd)
    × All (λ p. get p.0 active.watches ≡ some p.1) ws
    × IsSorted 0 false ws
unfolding inotify_tools.Registry.create_watch new Watch.defaults record_stats initialize_stats get
    inotify_tools.BTreeMap.or_insert inotify_tools.BTreeMap.insert
print_info_lem_example =
    print_info_lem system active watching 0 false 0 active-Inv active-AreU32 refl (inl (refl, refl))
