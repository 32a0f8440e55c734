-- ===== src/Program/Wait.antt =====
-- src/inotifywait.rs: `real_main`.
use inotify_tools.Prelude.{
  ℕ, Bytes, Bool, not, ◌&&◌, Option, none, some, List, [], ◌∷◌, ◌++◌, ◌==◌, if◌then◌else◌,
  until_nul, unwrap_or, bit_or, leb,
}
use inotify_tools.Prelude.Buffer.{codes}
use inotify_tools.Consts.{
  in_all_events, in_create, in_moved_to, in_moved_from, in_dont_follow, in_isdir,
}
use inotify_tools.Filters.{install}
use inotify_tools.Format.{set_printf_timefmt}
use inotify_tools.Handle.{Inotifytools, Regex, new, ◌>>=◌}
use inotify_tools.Kernel.{Kernel}
use inotify_tools.Monitor.{State, wait_loop, exit_failure}
use inotify_tools.Names.{Event}
use inotify_tools.Options.Getopt.{GetOpt}
use inotify_tools.Options.Wait.{Opts, defaults, parse_opts}
use inotify_tools.Paths.{FileList, invoked_as_fsnotify}
use inotify_tools.Printing.{goes_on, exits, new_nstring, validate_format}
use inotify_tools.Program.{Host, Stage, ◌then_next◌, warn_inotify_init_error, files_of, redirect}
use inotify_tools.Reader.{new_reader}
use inotify_tools.Removal.{init}
use inotify_tools.Tracker.{watch_list}

abbrev pub blocking_timeout : ℕ
blocking_timeout = 0

-- the events that are asked for, and those that the watches are for
unfoldable pub orig_events : Opts → ℕ
orig_events o = if o.events == 0 then in_all_events else o.events

unfoldable pub watched_events : Opts → ℕ
unfolding orig_events
watched_events o =
    let events = orig_events o in
    let events =
      if o.monitor && not (o.recursive == 0)
      then bit_or events (bit_or in_create (bit_or in_moved_to in_moved_from))
      else events in
    let events = if o.no_dereference then bit_or events in_dont_follow else events in
    if o.fanotify then bit_or events in_isdir else events

abbrev pub dev_null : Bytes
dev_null = codes "/dev/null"

-- `O_WRONLY | O_CREAT | O_APPEND` and `O_WRONLY`
abbrev pub for_appending : ℕ
for_appending = 0x441

abbrev pub for_writing : ℕ
for_writing = 1

-- what is said before the watches are set up
unfoldable pub announcement : Opts → List Bytes
announcement o =
    if not (o.quiet == 0)
    then []
    else if o.filesystem
    then codes "Setting up filesystem watches.\n" ∷ []
    else if not (o.recursive == 0)
    then codes "Setting up watches.  Beware: since -r was given, this may take a while!\n" ∷ []
    else codes "Setting up watches.\n" ∷ []

-- `timeout < 0` of a `c_long`
abbrev pub negative : ℕ → Bool
negative timeout = leb 0x8000000000000000 timeout

module _ {W : Type 0} (k : Kernel W) (host : Host W) (strerror : ℕ → Bytes) where
  -- the redirections of a daemon, and that of `--outfile`
  unfoldable pub redirect_output : Opts → W → Stage W Opts
  redirect_output o s =
      if o.daemon
      then (let outfile = unwrap_or o.outfile [] in
          let (path, s1) = host.realpath (until_nul outfile) s in
          elim path [
            | none ↦
                some (
                  none,
                  (strerror (k.errno s1) ++ (codes ": " ++ (outfile ++ codes "\n"))) ∷ [],
                  s1,
                )
            | some buf ↦
                let logfile = until_nul buf in
                let (detached, s2) = host.daemon s1 in
                let (_, s3) = redirect k host strerror dev_null 0 0 0 s2 in
                let (ok, s4) = redirect k host strerror logfile for_appending 0x180 1 s3 in
                let (_, s5) = redirect k host strerror dev_null for_writing 0 2 s4 in
                if not detached
                then some (none, codes "Failed to daemonize!\n" ∷ [], s2)
                else if not ok
                then some (
                  none,
                  (codes "Failed to open output file " ++ (logfile ++ codes "\n")) ∷ [],
                  s4,
                )
                else some (some o, [], s5)
          ])
      else elim o.outfile [
        | none ↦ some (some o, [], s)
        | some outfile ↦
            let (ok, s1) = redirect k host strerror (until_nul outfile) for_appending 0x180 1 s in
            if ok
            then some (some o, [], s1)
            else some
                (none, (codes "Failed to open output file " ++ (outfile ++ codes "\n")) ∷ [], s1)
      ]

  -- the handle is made and opened
  unfoldable pub open_library : Opts → W → Stage W Inotifytools
  open_library o s =
      let (ok, l, s') = init k new o.fanotify o.filesystem (if o.quiet == 0 then 1 else 0) s in
      if ok
      then some (some l, [], s')
      else some (none, warn_inotify_init_error strerror l o.fanotify, s')

  -- the watches, with the messages around them, and the test of the timeout
  unfoldable pub establish : ℕ → Opts → Inotifytools → FileList → W → Stage W Inotifytools
  establish fuel o l list s =
      watch_list k strerror fuel l list (watched_events o) (not (o.recursive == 0)) o.filesystem
        o.fanotify (codes "Couldn't watch ") (λ f. []) (λ f. []) s
      >>= λ (ok, out, l', s').
          let told = announcement o ++ out in
          let all = told ++ (if o.quiet == 0 then codes "Watches established.\n" ∷ [] else []) in
          if not ok
          then some (none, told, s')
          else if negative o.timeout
          then some (none, all ++ (codes "Negative timeout specified - abort!\n" ∷ []), s')
          else some (some l', all, s')

-- `devnull` is the message if /dev/null cannot be opened; `evstr` what the buffer of
-- `event_to_str_sep` holds
module _ {W : Type 0} (k : Kernel W) (host : Host W) (strerror : ℕ → Bytes)
    (compiles : Bytes → ℕ → Bool) (strftime : Bytes → W → Option Bytes) (evstr : Bytes)
    (devnull : Option Bytes) where
  -- the time format, the filters and the format are put into the handle, or tried
  unfoldable pub prepare : Opts → Inotifytools → W → Stage W Inotifytools
  prepare o l s =
      let l1 : Inotifytools = elim o.timefmt [ none ↦ l | some t ↦ set_printf_timefmt l t ] in
      let (ok, l2) = install compiles o.filters l1 o.recursive in
      if not ok then some (none, [], s) else elim o.format [
        | none ↦ some (some l2, [], s)
        | some fmt ↦
            validate_format k strftime evstr devnull
              (record { lib = l2; print_out = some new_nstring; stream = some [] }) fmt s
            >>= λ (tried, s'). elim tried [
              | goes_on p messages ↦ some (some p.lib, messages, s')
              | exits messages ↦ some (none, messages, s')
            ]
      ]

  -- `real_main` up to its loop
  unfoldable pub set_up : ℕ → Opts → List Bytes → W → Stage W Inotifytools
  set_up fuel o args s = open_library k host strerror o s then_next (λ l s.
      prepare o l s then_next (λ l s.
        files_of k host strerror args o.fromfile s then_next (λ list s.
          redirect_output k host strerror o s
          then_next (λ o s. establish k host strerror fuel o l list s))))

-- the state that the loop starts with
abbrev pub started : {W : Type 0} → Inotifytools → W → State W
started l s = record {
  reader = record new_reader { lib = l };
  moved_from = none;
  shown = [];
  out = [];
  sys = s;
}

module _ {W : Type 0} (k : Kernel W) (host : Host W) (strerror : ℕ → Bytes)
    (compiles : Bytes → ℕ → Bool) (strftime : Bytes → W → Option Bytes) (evstr : Bytes)
    (devnull : Option Bytes) (strtol : Bytes → ℕ × ℕ × ℕ) (regexec : Regex → Bytes → Bool) where
  -- The exit code, the events shown, the messages, and the system; `rounds` is fuel for the loop.
  unfoldable pub real_main :
      ℕ → ℕ → GetOpt → Option Bytes → W → Option (ℕ × List Event × List Bytes × W)
  real_main rounds fuel g argv0 s =
      elim (parse_opts strtol g (defaults blocking_timeout (invoked_as_fsnotify argv0))) [
        | none ↦ some (exit_failure, [], [], s)
        | some (o, args) ↦
            set_up k host strerror compiles strftime evstr devnull fuel o args s
            >>= λ (handle, messages, s'). elim handle [
              | none ↦ some (exit_failure, [], messages, s')
              | some l ↦
                  wait_loop k regexec strerror rounds fuel o (watched_events o) (orig_events o)
                    (started l s')
                  >>= λ (code, st). some (code, st.shown, messages ++ st.out, st.sys)
            ]
      ]
