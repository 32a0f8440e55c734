-- ===== src/Program/Batch.antt =====
-- inotifywait -m from its command line to its exit, on a batch of events.
use inotify_tools.Prelude.{
  ℕ, suc, ◌*◌, ◌≤◌, ◌≡◌, refl, ◌∙◌, ap, Bytes, Bool, true, false, Option, none, some, List, [], ◌∷◌,
  ◌++◌, ◌==◌, arith, length, if◌then◌else◌, is_empty, All,
}
use mathlib.Core.List.{append-nil}
use inotify_tools.Prelude.Buffer.{codes}
use inotify_tools.Prelude.Word.{is_neg}
use inotify_tools.Filters.{Filters, install, install_one, no_filters}
use inotify_tools.Handle.{Inotifytools, Regex, new}
use inotify_tools.Kernel.{Kernel}
use inotify_tools.Monitor.{exit_timeout}
use inotify_tools.Monitor.Batches.{wait_loop_lem}
use inotify_tools.Monitor.Rounds.{seen, patience}
use inotify_tools.Names.{Event}
use inotify_tools.Options.Getopt.{GetOpt}
use inotify_tools.Options.Wait.{Opts, defaults, parse_opts}
use inotify_tools.Paths.{FileList, no_files, add_args, construct_path_list, invoked_as_fsnotify}
use inotify_tools.Program.{Host, files_of}
use inotify_tools.Program.Kept.{watch_list-Kept}
use inotify_tools.Program.Wait.{
  blocking_timeout, orig_events, watched_events, announcement, negative, redirect_output,
  open_library, establish, prepare, set_up, real_main,
}
use inotify_tools.Reader.{Reader, new_reader, cap}
use inotify_tools.Reader.Batch.{Ready, asked}
use inotify_tools.Reader.Remaining.{encodes}
use inotify_tools.Reader.Wire.{IsEvent, length-replicate}
use inotify_tools.Removal.{init, open_queue}
use inotify_tools.Tracker.{watch_list}

-- -m without -r, on inotify, that reads no file list, filters nothing, and stays in the foreground
pub record Plain (o : Opts) : Type 0 where
  pub monitors : o.monitor ≡ true
  pub flat : o.recursive ≡ 0
  pub inotify : o.fanotify ≡ false
  pub files : o.filesystem ≡ false
  pub unfiltered : o.filters ≡ no_filters
  pub no_format : o.format ≡ none
  pub no_timefmt : o.timefmt ≡ none
  pub no_list : o.fromfile ≡ none
  pub foreground : o.daemon ≡ false
  pub to_stdout : o.outfile ≡ none
  pub waits : negative o.timeout ≡ false

-- the messages of a setup that succeeds
abbrev pub messages : Opts → List Bytes → List Bytes
messages o out =
    (announcement o ++ out) ++ (if o.quiet == 0 then codes "Watches established.\n" ∷ [] else [])

module _ {W : Type 0} (k : Kernel W) (strerror : ℕ → Bytes) (o : Opts) where
  -- the handle after a successful `init`
  abbrev pub opened : W → Inotifytools
  opened s = (init k new false false (if o.quiet == 0 then 1 else 0) s).1

  -- `watch_list` as `real_main` calls it
  abbrev pub watching :
      ℕ → Inotifytools → FileList → W → Option (Bool × List Bytes × Inotifytools × W)
  watching fuel l list s =
      watch_list k strerror fuel l list (watched_events o) false false false
        (codes "Couldn't watch ") (λ f. []) (λ f. []) s

module _ {W : Type 0} (k : Kernel W) (host : Host W) (strerror : ℕ → Bytes)
    (compiles : Bytes → ℕ → Bool) (strftime : Bytes → W → Option Bytes) (evstr : Bytes)
    (devnull : Option Bytes) (o : Opts) (plain : Plain o) where
  open_library_lem :
      (s : W)
      → is_neg (k.inotify_init s).0 ≡ false
      → open_library k host strerror o s
        ≡ some (some (opened k strerror o s), [], (k.inotify_init s).1)
  unfolding open_library init open_queue new
  open_library_lem s ok = ground (arith, ok, plain.inotify, plain.files)

  nothing_installed :
      (f : Filters) (l : Inotifytools)
      → f ≡ no_filters
      → install compiles f l o.recursive ≡ (true, l)
  unfolding install install_one
  nothing_installed f l e = rw e refl

  prepare_lem :
      (l : Inotifytools) (s : W)
      → prepare k host strerror compiles strftime evstr devnull o l s ≡ some (some l, [], s)
  unfolding prepare
  prepare_lem l s =
      ground
        (arith, plain.no_timefmt, plain.no_format, nothing_installed o.filters l plain.unfiltered)

  files_lem :
      (args : List Bytes) (s : W)
      → is_empty (add_args no_files args).watch_files ≡ false
      → files_of k host strerror args o.fromfile s ≡ some (some (add_args no_files args), [], s)
  unfolding files_of construct_path_list
  files_lem args s some_files = rw (plain.no_list, some_files) refl

  output_lem : (s : W) → redirect_output k host strerror o s ≡ some (some o, [], s)
  unfolding redirect_output
  output_lem s = ground (arith, plain.foreground, plain.to_stdout)

  establish_lem :
      (fuel : ℕ) (l l' : Inotifytools) (list : FileList) (out : List Bytes) (s s' : W)
      → watching k strerror o fuel l list s ≡ some (true, out, l', s')
      → establish k host strerror fuel o l list s ≡ some (some l', messages o out, s')
  unfolding establish
  establish_lem fuel l l' list out s s' e =
      ground (arith, plain.flat, plain.files, plain.inotify, e, plain.waits)

  set_up_lem :
      (fuel : ℕ) (args : List Bytes) (l' : Inotifytools) (out : List Bytes) (s s' : W)
      → is_neg (k.inotify_init s).0 ≡ false
      → is_empty (add_args no_files args).watch_files ≡ false
      → watching k strerror o fuel
          (opened k strerror o s)
          (add_args no_files args)
          (k.inotify_init s).1
        ≡ some (true, out, l', s')
      → set_up k host strerror compiles strftime evstr devnull fuel o args s
        ≡ some (some l', messages o out, s')
  unfolding set_up
  set_up_lem fuel args l' out s s' ok some_files e =
      let s1 = (k.inotify_init s).1 in
      rw
        (
          open_library_lem s ok,
          prepare_lem (opened k strerror o s) s1,
          files_lem args s1 some_files,
          output_lem s1,
          establish_lem fuel (opened k strerror o s) l' (add_args no_files args) out s1 s' e,
        )
        refl

  opened_lem :
      (s : W)
      → is_neg (k.inotify_init s).0 ≡ false
      → ((opened k strerror o s).fanotify_mode ≡ false) × ((opened k strerror o s).regex ≡ none)
  unfolding init open_queue new
  opened_lem s ok = (ground (arith, ok), ground (arith, ok))

module _ {W : Type 0} (k : Kernel W) (host : Host W) (strerror : ℕ → Bytes)
    (compiles : Bytes → ℕ → Bool) (strftime : Bytes → W → Option Bytes) (evstr : Bytes)
    (devnull : Option Bytes) (strtol : Bytes → ℕ × ℕ × ℕ) (regexec : Regex → Bytes → Bool) where
  -- inotifywait -m on inotify, without -r, a filter, a format, a list file, a redirection, or a
  -- negative timeout: if the queue can be opened, at least one file is named and all watches
  -- are set up, and the system then has a batch of events that fits half the buffer, and nothing
  -- more until the timeout, then the program says that it sets up watches and has done so
  -- (not with -q), shows exactly the events of the batch that have an event that was
  -- asked for (with -qq, none), in their order, and returns the exit code of a timeout.
  pub real_main_lem :
      (g : GetOpt) (argv0 : Option Bytes) (o : Opts) (args : List Bytes) (l' : Inotifytools)
      (out : List Bytes) (ev : Event) (evs : List Event) (fuel : ℕ) (s s' : W)
      → parse_opts strtol g (defaults blocking_timeout (invoked_as_fsnotify argv0)) ≡ some (o, args)
      → (plain : Plain o) → is_neg (k.inotify_init s).0 ≡ false
      → is_empty (add_args no_files args).watch_files ≡ false
      → watching k strerror o
          (suc (suc fuel))
          (opened k strerror o s)
          (add_args no_files args)
          (k.inotify_init s).1
        ≡ some (true, out, l', s')
      → length (encodes (ev ∷ evs)) ≤ cap
      → All IsEvent (ev ∷ evs)
      → Ready k (record new_reader { lib = l' }) (ev ∷ evs) (patience o) 1 s'
      → let late = asked k (record new_reader { lib = l' }) (patience o) s' in
        (k.ppoll l'.fd (patience o) late).0 ≡ 0
        → real_main k host strerror compiles strftime evstr devnull strtol regexec
            (suc (suc (length evs)))
            (suc (suc fuel))
            g
            argv0
            s
          ≡ some (
            exit_timeout,
            seen o (orig_events o) (ev ∷ evs),
            messages o out,
            (k.ppoll l'.fd
                (patience o)
                (asked k (record new_reader { lib = l' }) (patience o) s')).1,
          )
  unfolding real_main
  real_main_lem g argv0 o args l' out ev evs fuel s s' parsed plain ok some_files watched small real
        ready late =
      let r : Reader = record new_reader { lib = l' } in
      let l = opened k strerror o s in
      let (mode, filter) =
        opened_lem k host strerror compiles strftime evstr devnull o plain s ok in
      let (_, same_mode, same_filter) =
        watch_list-Kept k strerror (suc (suc fuel)) l l' (add_args no_files args) (watched_events o)
          false (codes "Couldn't watch ") (λ f. []) (λ f. []) true out (k.inotify_init s).1 s'
          watched in
      let (r', done) =
        wait_loop_lem k regexec strerror fuel (watched_events o) (orig_events o) o plain.files
          plain.monitors plain.flat r ev evs s' (same_mode ∙ mode) (same_filter ∙ filter)
          (unfold new_reader in refl) small
          (unfold new_reader in omega (arith, length-replicate (2 * cap) 0)) real ready late in
      rw
        (
          real_main,
          parsed,
          set_up_lem k host strerror compiles strftime evstr devnull o plain (suc (suc fuel)) args
              l' out s s' ok some_files watched,
          done,
        )
        (ap
          (λ (m : List Bytes). some (
            exit_timeout,
            seen o (orig_events o) (ev ∷ evs),
            m,
            (k.ppoll l'.fd (patience o) (asked k r (patience o) s')).1,
          ))
          (append-nil (messages o out)))
