-- ===== src/Tests/Program.antt =====
-- The theorems on the C interface, on printing and on the two programs, at concrete inputs.
use inotify_tools.Prelude.{
  ℕ, ◌+◌, ◌*◌, ◌≡◌, ◌∙◌, sym, ap, inl, refl, Bytes, Bool, true, false, not, Option, none, some,
  List, [], ◌∷◌, ◌++◌, ◌==◌, arith, if◌then◌else◌, All, map, is_empty, ltb, replicate,
}
use mathlib.Core.List.{Perm}
use inotify_tools.Prelude.Ord.{nat_ord}
use inotify_tools.Prelude.Buffer.{codes}
use inotify_tools.Api.{Global, lib}
use inotify_tools.Api.Calls as Calls
use inotify_tools.Api.Calls.{Call}
use inotify_tools.Api.Total.{run-untouched_total}
use inotify_tools.BTreeMap.{get, values}
use inotify_tools.Counters.{get_stat_total}
use inotify_tools.Counters.Sorted.{IsSorted}
use inotify_tools.Format.{NString}
use inotify_tools.Handle.{Watch, new}
use inotify_tools.Kernel.{Kernel}
use inotify_tools.Limits.{Files}
use inotify_tools.Monitor.{exit_success, exit_timeout, watch_loop}
use inotify_tools.Monitor.Rounds.{quiet, seen}
use inotify_tools.Monitor.Statistics.{forever, rounds_of, watch_loop_lem}
use inotify_tools.Options.Wait as Wait
use inotify_tools.Options.Watch as Watch
use inotify_tools.Printing.{Printer, Tried, new_nstring, output_events, validate_format, event_args}
use inotify_tools.Printing.Laws.{accepted, texts, output_events_lem, validate_format_lem}
use inotify_tools.Reader.{Reader, new_reader, cap}
use inotify_tools.Reader.Batch.{asked}
use inotify_tools.Reader.Remaining.{counted_all, encodes}
use inotify_tools.Reader.Wire.{length-replicate}
use inotify_tools.Options.Getopt.{GetOpt}
use inotify_tools.Paths.{add_args}
use inotify_tools.Program.{Host}
use inotify_tools.Program.Batch.{Plain, messages, real_main_lem}
use inotify_tools.Program.Wait.{orig_events, real_main}
use inotify_tools.Session.Keeps.{Inv-of_same}
use inotify_tools.Registry.Invariant.{Inv, new-Inv}
use inotify_tools.Report.{Column, columns}
use inotify_tools.Report.Layout.{heading, Picked, Rows, AreU32}
use inotify_tools.Report.Table.{text}
use inotify_tools.Stats as Stats
use inotify_tools.Stats.{WatchStats, no_events}
use inotify_tools.Stats.Record.{get-no_events}
use inotify_tools.Tests.Events.{created, moved, created-IsEvent, moved-IsEvent, no_match}
use inotify_tools.Tests.Registry.{handle, handle-Inv, system}

abbrev all_compile : Bytes → ℕ → Bool
all_compile pattern flags = true

abbrev no_files : Files ℕ
no_files = record { fopen = λ path s. (false, s); fscanf = λ num s. (none, s); fclose = λ s. s }

abbrev noon : Bytes → ℕ → Option Bytes
noon fmt s = some (codes "12:00")

abbrev zeros : Bytes
zeros = replicate 1024 0

-- calls on a process that has not used the library, some of them with NULL
abbrev c_calls : List Call
c_calls =
    Calls.set_filename_by_filename none (some (codes "/x"))
    ∷ Calls.watch_file (some (codes "/d")) 2
    ∷ Calls.filename_from_event none true
    ∷ Calls.replace_filename (some (codes "/d")) (some (codes "/e"))
    ∷ Calls.set_printf_timefmt none
    ∷ Calls.snprintf none 80 none (some (codes "%w"))
    ∷ Calls.print (some []) none (some (codes "%w%n"))
    ∷ Calls.get_max_queued_events
    ∷ Calls.remove_watch_by_filename (some (codes "/e"))
    ∷ Calls.cleanup
    ∷ []

run-untouched_total_example :
    (g : Global) × (s' : ℕ) × (Calls.run system no_files all_compile noon zeros none 0 c_calls
      ≡ some (g, s'))
    × Inv (lib g).reader.lib
unfolding new_nstring
run-untouched_total_example =
    run-untouched_total system no_files all_compile noon zeros c_calls 0
      (tt, (tt, (tt, (tt, (tt, (refl, (tt, (tt, (tt, (tt, tt)))))))))) (omega arith)

abbrev printer : Printer
printer = record { lib = new; print_out = some new_nstring; stream = some [] }

abbrev two_lines : Bytes
two_lines = codes "x.\n" ++ codes ".\n"

abbrev named : Wait.Opts
named = record (Wait.defaults 5 false) { format = some (codes "%f.\n") }

output_events_lem_example :
    (out : Option NString) × (output_events system noon zeros named printer (created ∷ moved ∷ []) 0
      ≡ some (record { lib = new; print_out = out; stream = some two_lines }, 0))
unfolding texts new new_nstring Wait.defaults event_args inotify_tools.Names.filename_from_event get
    inotify_tools.Format.Expand.expand
output_events_lem_example =
    output_events_lem system noon zeros named (codes "%f.\n") two_lines (created ∷ moved ∷ [])
      printer 0 0 refl refl new-Inv refl (omega arith) (omega arith) refl

validate_format_lem_example :
    (tried : Tried) × (validate_format system noon zeros none printer (codes "%w%f") 0
      ≡ some (tried, 0))
    × (accepted tried ≡ not (is_empty {A = ℕ} []))
unfolding event_args new new_nstring inotify_tools.Format.Expand.expand
    inotify_tools.Names.filename_from_event
validate_format_lem_example =
    validate_format_lem system noon zeros printer (codes "%w%f") [] _ 0 0 new-Inv refl refl
      (omega arith) (omega arith) refl (omega arith)

-- a system with a batch of the two events
abbrev once : Kernel ℕ
once = record system {
  ppoll = λ fd timeout s. (if ltb s 100 then 1 else 0, s + 1);
  fionread = λ fd s. (some 48, s + 10);
  read = λ fd size s. (some (encodes (created ∷ moved ∷ [])), s + 100);
}

abbrev counting : Reader
counting = record new_reader { lib = record handle { collect_stats = true } }

abbrev statistics : Watch.Opts
statistics = record (Watch.defaults 5 false) { events = 0xfff; zero = 1 }

abbrev text_of : ℕ → Bytes
text_of e = codes "error"

counting-Inv : Inv counting.lib
counting-Inv = Inv-of_same handle counting.lib refl refl refl refl refl handle-Inv

counting-AreU32 : AreU32 counting.lib
unfolding inotify_tools.Registry.create_watch new inotify_tools.Registry.pick_wd
    inotify_tools.Registry.register inotify_tools.Registry.new_watch get
    inotify_tools.BTreeMap.insert inotify_tools.BTreeMap.or_insert
counting-AreU32 id w event n live known =
    let zeros : w.stats ≡ no_events = ground (arith, live) in
    omega (
      arith,
      get-no_events event n (ap (λ (x : WatchStats). Stats.get x event) (sym zeros) ∙ known),
    )

watch_loop_lem_example :
    let l = counted_all counting.lib (created ∷ moved ∷ []) in
    (r' : Reader) × (shown : List Column) × (ws : List (ℕ × Watch)) × (ts : List Bytes)
    × (watch_loop once no_match text_of 2 statistics 0 0xfff
          (rounds_of (moved ∷ []))
          ([], quiet counting [] 0)
        ≡ some (
          exit_success,
          if get_stat_total l 0 == 0 then [] else heading shown ++ text ts,
          quiet r' [] (asked once counting forever 0),
        ))
    × Picked l statistics columns shown
    × Rows statistics.zero shown ws ts
    × Perm (map (λ p. p.0) ws) (values counting.lib.by_wd)
    × All (λ p. get p.0 l.watches ≡ some p.1) ws
    × IsSorted 0 false ws
unfolding Watch.defaults new_reader new inotify_tools.Registry.create_watch
watch_loop_lem_example =
    watch_loop_lem once no_match text_of 0 0xfff statistics refl refl counting created (moved ∷ [])
      0 false 0 refl refl refl refl counting-Inv counting-AreU32 (inl (refl, refl)) (omega arith)
      (omega (arith, length-replicate (2 * cap) 0)) (created-IsEvent, (moved-IsEvent, tt))
      (record { polled = refl; waiting = 48; asked = refl; enough = refl; got = refl })

abbrev no_host : Host ℕ
no_host = record {
  realpath = λ path s. (none, s);
  daemon = λ s. (false, s);
  open_file = λ path flags mode s. (3, s);
  dup2 = λ fd target s. s;
  read_file = λ path s. (none, s);
}

abbrev no_number : Bytes → ℕ × ℕ × ℕ
no_number s = (0, 0, 0)

-- inotifywait -m /d
abbrev command_line : GetOpt
command_line = record { options = (b'm', none) ∷ []; bad = false; remaining = codes "/d" ∷ [] }

abbrev monitoring : Wait.Opts
monitoring = record (Wait.defaults 0 false) { monitor = true }

monitoring-Plain : Plain monitoring
unfolding Wait.defaults
monitoring-Plain = record {
  monitors = refl;
  flat = refl;
  inotify = refl;
  files = refl;
  unfiltered = refl;
  no_format = refl;
  no_timefmt = refl;
  no_list = refl;
  foreground = refl;
  to_stdout = refl;
  waits = refl;
}

real_main_lem_example :
    real_main once no_host text_of all_compile noon zeros none no_number no_match 3 2 command_line
      none 0
    ≡ some (
      exit_timeout,
      seen monitoring (orig_events monitoring) (created ∷ moved ∷ []),
      messages monitoring [],
      114,
    )
unfolding Wait.defaults new_reader new Wait.parse_opts add_args inotify_tools.Tracker.watch_list
    inotify_tools.Removal.init inotify_tools.Paths.invoked_as_fsnotify
    inotify_tools.Setup.watch_file
real_main_lem_example =
    real_main_lem once no_host text_of all_compile noon zeros none no_number no_match command_line
      none monitoring (codes "/d" ∷ []) _ [] created (moved ∷ []) 0 0 2 refl monitoring-Plain refl
      refl refl (omega arith) (created-IsEvent, (moved-IsEvent, tt))
      (record { polled = refl; waiting = 48; asked = refl; enough = refl; got = refl }) refl
