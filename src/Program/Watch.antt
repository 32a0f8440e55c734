-- ===== src/Program/Watch.antt =====
-- src/inotifywatch.rs: `real_main`.
use inotify_tools.Prelude.{
  ℕ, Bytes, Bool, not, ◌&&◌, Option, none, some, List, [], ◌∷◌, ◌++◌, ◌==◌, if◌then◌else◌, bit_or,
}
use inotify_tools.Prelude.Buffer.{codes}
use inotify_tools.Consts.{in_all_events, in_dont_follow, in_isdir}
use inotify_tools.Counters.{initialize_stats}
use inotify_tools.Filters.{install}
use inotify_tools.Handle.{Inotifytools, Regex, new, ◌>>=◌}
use inotify_tools.Kernel.{Kernel}
use inotify_tools.Monitor.{Signals, watch_loop, exit_failure}
use inotify_tools.Options.Getopt.{GetOpt}
use inotify_tools.Options.Watch.{Opts, defaults, parse_opts}
use inotify_tools.Paths.{FileList, invoked_as_fsnotify}
use inotify_tools.Program.{Host, Stage, ◌then_next◌, warn_inotify_init_error, files_of}
use inotify_tools.Program.Wait.{blocking_timeout, negative, started}
use inotify_tools.Registry.{get_num_watches}
use inotify_tools.Removal.{init}
use inotify_tools.Report.{decimal}
use inotify_tools.Tracker.{watch_list}

-- `events` of `real_main`, which it stores in the options
unfoldable pub watched_events : Opts → ℕ
watched_events o =
    let events = if o.events == 0 then in_all_events else o.events in
    let events = if not (o.no_dereference == 0) then bit_or events in_dont_follow else events in
    if o.fanotify then bit_or events in_isdir else events

-- the closures `before` and `after`
unfoldable pub before : Opts → Bytes → List Bytes
before o f =
    if o.filesystem
    then (codes "Setting up filesystem watch on " ++ (f ++ codes "\n")) ∷ []
    else if not (o.recursive == 0) && not (o.verbose == 0)
    then (codes "Setting up watch(es) on " ++ (f ++ codes "\n")) ∷ []
    else []

unfoldable pub after : Opts → Bytes → List Bytes
after o f =
    if not (o.recursive == 0) && not (o.verbose == 0)
    then (codes "OK, " ++ (f ++ codes " is now being watched.\n")) ∷ []
    else []

module _ {W : Type 0} (k : Kernel W) (host : Host W) (strerror : ℕ → Bytes)
    (compiles : Bytes → ℕ → Bool) where
  -- the filters, and then the handle
  unfoldable pub open_library : Opts → W → Stage W Inotifytools
  open_library o s =
      let (installed, l) = install compiles o.filters new o.recursive in
      let (ok, l', s') = init k l o.fanotify o.filesystem o.verbose s in
      if not installed
      then some (none, [], s)
      else if not ok
      then some (none, warn_inotify_init_error strerror l' o.fanotify, s')
      else some (some l', [], s')

  -- the watches, with the messages around them, and the test of the timeout
  unfoldable pub establish : ℕ → Opts → Inotifytools → FileList → W → Stage W Inotifytools
  establish fuel o l list s =
      watch_list k strerror fuel l list (watched_events o) (not (o.recursive == 0)) o.filesystem
        o.fanotify (codes "Failed to watch ") (before o) (after o) s
      >>= λ (ok, out, l', s').
          let told = codes "Establishing watches...\n" ∷ out in
          let total =
            if not (o.verbose == 0)
            then (codes "Total of " ++ (decimal 10 (get_num_watches l') ++ codes " watches.\n"))
              ∷ []
            else [] in
          let all =
            told
            ++ (total
                ++ (codes "Finished establishing watches, now collecting statistics.\n" ∷ [])) in
          if not ok
          then some (none, told, s')
          else if negative o.timeout
          then some (none, all ++ (codes "Negative timeout specified - abort!\n" ∷ []), s')
          else some (
            some l',
            all
                ++ (if not (o.timeout == 0) && not (o.verbose == 0)
                    then (codes "Will listen for events for "
                        ++ (decimal 20 o.timeout ++ codes " seconds.\n"))
                      ∷ []
                    else []),
            s',
          )

  -- `real_main` up to its loop, without the signal handlers and the alarm
  unfoldable pub set_up : ℕ → Opts → List Bytes → W → Stage W Inotifytools
  set_up fuel o args s = open_library o s then_next (λ l s.
      files_of k host strerror args o.fromfile s then_next (λ list s. establish fuel o l list s))

module _ {W : Type 0} (k : Kernel W) (host : Host W) (strerror : ℕ → Bytes)
    (compiles : Bytes → ℕ → Bool) (strtol : Bytes → ℕ × ℕ × ℕ)
    (regexec : Regex → Bytes → Bool) where
  -- The exit code, what is printed, the messages, and the system.
  unfoldable pub real_main :
      ℕ → List Signals → GetOpt → Option Bytes → W → Option (ℕ × Bytes × List Bytes × W)
  real_main fuel signals g argv0 s =
      elim (parse_opts strtol g (defaults blocking_timeout (invoked_as_fsnotify argv0))) [
        | none ↦ some (exit_failure, [], [], s)
        | some (o, args) ↦
            set_up k host strerror compiles fuel o args s >>= λ (handle, messages, s').
            elim handle [
              | none ↦ some (exit_failure, [], messages, s')
              | some l ↦
                  watch_loop k regexec strerror fuel (record o { events = watched_events o })
                    blocking_timeout (watched_events o) signals
                    ([], started (initialize_stats l) s')
                  >>= λ (code, printed, st). some (code, printed, messages ++ st.out, st.sys)
            ]
      ]
