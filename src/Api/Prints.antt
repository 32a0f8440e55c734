-- ===== src/Api/Prints.antt =====
-- The calls of the C interface that print, or that set formats, filters and the error end, and
-- keep the handle good.
use inotify_tools.Prelude.{
  ℕ, ◌≡◌, refl, Bytes, Bool, true, false, Option, none, some, arith, length, Option-cases,
  Bool-cases, inl, inr, unwrap_or, ◌∙◌, until_nul, bit_or,
}
use inotify_tools.Prelude.Ord.{nat_ord, bytes_ord}
use inotify_tools.Api.{Pointer, opt_bytes, InotifyEvent, event_from_c, Global, lib, set_lib}
use inotify_tools.Api.Calls as Calls
use inotify_tools.Api.Calls.{Call, cost, costs, step, run}
use inotify_tools.Api.Registry.{
  inotifytools_set_printf_timefmt, inotifytools_clear_timefmt, inotifytools_ignore_events_by_regex,
  inotifytools_ignore_events_by_inverted_regex,
}
use inotify_tools.Handle.{Inotifytools}
use inotify_tools.Limits.{Files}
use inotify_tools.Kernel.{Kernel}
use inotify_tools.Printing.Laws.{Sized}
use inotify_tools.Registry.Invariant.{Inv}
use inotify_tools.Api.Steps.{Good, Steps}
use inotify_tools.Api.Output.{inotifytools_fprintf, inotifytools_snprintf}
use inotify_tools.Api.Watching.{
  inotifytools_get_max_user_watches, inotifytools_get_max_user_instances,
  inotifytools_get_max_queued_events,
}
use inotify_tools.Csv.{max_strlen}
use inotify_tools.Filters.{
  reg_nosub, do_ignore_events_by_regex, ignore_events_by_regex, ignore_events_by_inverted_regex,
}
use inotify_tools.Format.{NString, Args, set_printf_timefmt, clear_timefmt}
use inotify_tools.Format.Bounds.{snprintf-Within}
use inotify_tools.Limits.{
  watches_size_path, queue_size_path, instances_path, read_num_from_file, get_max_queued_events,
  get_max_user_instances, get_max_user_watches,
}
use inotify_tools.Names.{Event}
use inotify_tools.Names.Laws.{filename_from_event_lem}
use inotify_tools.Printing.{Stream, new_nstring, event_args, time_of, snprintf_event, fprintf_to}
use inotify_tools.Session.Keeps.{Inv-of_same}

set_timefmt-Inv : (l : Inotifytools) (fmt : Option Bytes) → Inv l → Inv (record l { timefmt = fmt })
set_timefmt-Inv l fmt v = Inv-of_same l (record l { timefmt = fmt }) refl refl refl refl refl v

regex-Inv :
    (compiles : Bytes → ℕ → Bool) (l : Inotifytools) (pattern : Option Bytes) (flags : ℕ)
    (invert : Bool) (recursive : ℕ)
    → Inv l
    → let l' = (do_ignore_events_by_regex compiles l pattern flags invert recursive).1 in
      Inv l' × (l'.next_id ≡ l.next_id)
unfolding do_ignore_events_by_regex
regex-Inv compiles l none flags invert recursive v =
    (Inv-of_same l _ refl refl refl refl refl v, refl)
regex-Inv compiles l (some pattern) flags invert recursive v =
    elim (Bool-cases (compiles (until_nul pattern) (bit_or flags reg_nosub))) [
      | inl e ↦ rw e (Inv-of_same l _ refl refl refl refl refl v, refl)
      | inr e ↦ rw e (Inv-of_same l _ refl refl refl refl refl v, refl)
    ]

limit-Inv :
    {W : Type 0} (k : Kernel W) (files : Files W) (l : Inotifytools) (path : Bytes) (s : W)
    → Inv l
    → let l' = (read_num_from_file k files l path s).1 in Inv l' × (l'.next_id ≡ l.next_id)
unfolding read_num_from_file
limit-Inv k files l path s v = elim (Bool-cases (files.fopen path s).0) [
  | inr e ↦ rw e (Inv-of_same l _ refl refl refl refl refl v, refl)
  | inl e ↦ elim (Option-cases (files.fscanf 0 (files.fopen path s).1).0) [
    | inl f ↦ rw (e, f) (Inv-of_same l _ refl refl refl refl refl v, refl)
    | inr (n, f) ↦ rw (e, f) (v, refl)
  ]
]

module _ {W : Type 0} (k : Kernel W) (strftime : Bytes → W → Option Bytes) (evstr : Bytes) where
  -- the method `snprintf` returns, and sets the error alone
  snprintf_event_total :
      (l : Inotifytools) (out : NString) (size : ℕ) (ev : Event) (fmt : Option Bytes) (s : W)
      → Inv l
      → length out.buf ≡ max_strlen
      → (ret : ℕ) × (error : ℕ) × (out' : NString) × (s' : W) × (snprintf_event k strftime evstr l
            out size ev fmt s
          ≡ some (ret, record l { error = error }, out', s'))
        × (length out'.buf ≡ max_strlen)
  unfolding snprintf_event event_args
  snprintf_event_total l out size ev fmt s v full =
      let (path, s', e, _, _) = filename_from_event_lem k l v ev s in
      let a : Args = record {
        path = path;
        mask = ev.mask;
        cookie = ev.cookie;
        evstr = evstr;
        time = time_of k strftime evstr l s';
      } in
      let (ret, error, out', f, w) = snprintf-Within a out l.error size fmt full in
      (ret, error, out', s', rw (e, f) refl, w.0 ∙ full)

module _ {W : Type 0} (k : Kernel W) (files : Files W) (compiles : Bytes → ℕ → Bool)
    (strftime : Bytes → W → Option Bytes) (evstr : Bytes) where
  abbrev Ends : Global → W → Call → Type 0
  Ends = Steps k files compiles strftime evstr

  pub step_printing :
      (g : Global) (s : W)
      → Good g
      → ((file : Stream) (event : Option InotifyEvent) (fmt : Pointer)
          → Ends g s (Calls.print file event fmt))
        × ((out : Option NString) (size : ℕ) (event : Option InotifyEvent) (fmt : Pointer)
            → Sized out
            → Ends g s (Calls.snprintf out size event fmt))
  unfolding step inotifytools_fprintf inotifytools_snprintf fprintf_to lib
  step_printing g s (v, full) = (prints, formats)
    where
      l : Inotifytools
      l = (lib g).reader.lib

      v_error : (error : ℕ) → Inv (record l { error = error })
      v_error error = Inv-of_same l (record l { error = error }) refl refl refl refl refl v

      prints :
          (file : Stream) (event : Option InotifyEvent) (fmt : Pointer)
          → Ends g s (Calls.print file event fmt)
      prints file event fmt =
          let (ret, error, out, s', e, full') =
            snprintf_event_total k strftime evstr l (unwrap_or (lib g).print_out new_nstring)
              max_strlen (event_from_c event) (opt_bytes fmt) s v full in
          (
            some (record {
              reader = record (lib g).reader { lib = record l { error = error } };
              print_out = some out;
            }),
            s',
            rw e refl,
            (v_error error, full'),
            omega arith,
          )

      formats :
          (out : Option NString) (size : ℕ) (event : Option InotifyEvent) (fmt : Pointer)
          → Sized out
          → Ends g s (Calls.snprintf out size event fmt)
      formats none size event fmt sized = (g, s, refl, (v, full), omega arith)
      formats (some out) size event fmt sized =
          let (ret, error, out', s', e, full') =
            snprintf_event_total k strftime evstr l out size (event_from_c event) (opt_bytes fmt) s
              v sized in
          (
            set_lib (lib g) (record l { error = error }),
            s',
            rw e refl,
            (v_error error, full),
            omega arith,
          )

  pub step_settings :
      (g : Global) (s : W)
      → Good g
      → ((fmt : Pointer) → Ends g s (Calls.set_printf_timefmt fmt))
        × Ends g s Calls.clear_timefmt
        × ((pattern : Pointer) (flags recursive : ℕ)
            → Ends g s (Calls.ignore_events_by_regex pattern flags recursive))
        × ((pattern : Pointer) (flags recursive : ℕ)
            → Ends g s (Calls.ignore_events_by_inverted_regex pattern flags recursive))
  unfolding step inotifytools_set_printf_timefmt inotifytools_clear_timefmt set_printf_timefmt
      inotifytools_ignore_events_by_regex inotifytools_ignore_events_by_inverted_regex
      ignore_events_by_regex ignore_events_by_inverted_regex clear_timefmt lib
  step_settings g s (v, full) = (
    λ fmt. (_, s, refl, (set_timefmt-Inv l _ v, full), omega arith),
    (_, s, refl, (set_timefmt-Inv l none v, full), omega arith),
    λ pattern flags recursive.
        let (v', n) = regex-Inv compiles l (opt_bytes pattern) flags false recursive v in
        (_, s, refl, (v', full), omega (arith, n)),
    λ pattern flags recursive.
        let (v', n) = regex-Inv compiles l (opt_bytes pattern) flags true recursive v in
        (_, s, refl, (v', full), omega (arith, n)),
  )
    where
      l : Inotifytools
      l = (lib g).reader.lib

  pub step_limits :
      (g : Global) (s : W)
      → Good g
      → Ends g s Calls.get_max_user_watches
        × Ends g s Calls.get_max_user_instances
        × Ends g s Calls.get_max_queued_events
  unfolding step inotifytools_get_max_user_watches inotifytools_get_max_user_instances
      inotifytools_get_max_queued_events get_max_queued_events get_max_user_instances
      get_max_user_watches lib
  step_limits g s (v, full) =
      let (w, n) = limit-Inv k files (lib g).reader.lib watches_size_path s v in
      let (i, n') = limit-Inv k files (lib g).reader.lib instances_path s v in
      let (q, n'') = limit-Inv k files (lib g).reader.lib queue_size_path s v in
      (
        (_, _, refl, (w, full), omega (arith, n)),
        (_, _, refl, (i, full), omega (arith, n')),
        (_, _, refl, (q, full), omega (arith, n'')),
      )
