-- ===== src/Options/Wait/Laws.antt =====
-- What an accepted command line of inotifywait guarantees.
use inotify_tools.Prelude.{
  ℕ, ◌≡◌, Bytes, true, false, Option, none, some, List, [], ◌∷◌, ◌==◌, if◌then◌else◌, arith, bit_or,
  Option-cases, inl, inr, unwrap_or, ◌≤◌, ◌≢◌,
}
use inotify_tools.Filters.{parse_event}
use inotify_tools.Filters.Laws.{given, validate_iff}
use inotify_tools.Options.Getopt.{GetOpt}
use inotify_tools.Options.Wait.{Opts, option, scan, end_format, consistent, has_time, parse_opts}

-- the masks of the options -e, joined to `acc`; an argument that is no event counts as none
unfoldable pub events_of : ℕ → List (ℕ × Option Bytes) → ℕ
events_of acc [] = acc
events_of acc ((c, arg) ∷ options) =
    let next = if c == b'e' then bit_or acc (unwrap_or (parse_event arg) 0) else acc in
    events_of next options

option-events :
    (strtol : Bytes → ℕ × ℕ × ℕ) (o o' : Opts) (c : ℕ) (arg : Option Bytes)
    → option strtol o c arg ≡ some o'
    → o'.events ≡ (if c == b'e' then bit_or o.events (unwrap_or (parse_event arg) 0) else o.events)
unfolding option
option-events strtol o o' c arg h = ground arith

scan-events :
    (strtol : Bytes → ℕ × ℕ × ℕ) (o o' : Opts) (options : List (ℕ × Option Bytes))
    → scan strtol o options ≡ some o'
    → o'.events ≡ events_of o.events options
unfolding scan events_of
scan-events strtol o o' [] h = ground arith
scan-events strtol o o' ((c, arg) ∷ options) h = elim (Option-cases (option strtol o c arg)) [
  | inl e ↦ absurd (ground (arith, e, h))
  | inr (o1, e) ↦
      ground (arith, e, h, option-events strtol o o1 c arg e, scan-events strtol o1 o' options)
]

-- -d sets the two options that it implies, and nothing takes them back
abbrev pub DaemonImplies : Opts → Type 0
DaemonImplies o = o.daemon ≡ true → (o.monitor ≡ true) × (o.syslog ≡ true)

option-DaemonImplies :
    (strtol : Bytes → ℕ × ℕ × ℕ) (o o' : Opts) (c : ℕ) (arg : Option Bytes)
    → DaemonImplies o
    → option strtol o c arg ≡ some o'
    → DaemonImplies o'
unfolding option
option-DaemonImplies strtol o o' c arg i h = ground arith

scan-DaemonImplies :
    (strtol : Bytes → ℕ × ℕ × ℕ) (o o' : Opts) (options : List (ℕ × Option Bytes))
    → DaemonImplies o
    → scan strtol o options ≡ some o'
    → DaemonImplies o'
unfolding scan
scan-DaemonImplies strtol o o' [] i h = ground arith
scan-DaemonImplies strtol o o' ((c, arg) ∷ options) i h =
    elim (Option-cases (option strtol o c arg)) [
      | inl e ↦ absurd (ground (arith, e, h))
      | inr (o1, e) ↦ ground (
        arith,
        e,
        h,
        scan-DaemonImplies strtol o1 o' options (option-DaemonImplies strtol o o1 c arg i e),
      )
    ]

-- what the checks behind the loop leave to rely on
pub record Accepted (o : Opts) : Type 0 where
  pub filters : given o.filters ≤ 1
  pub one_output : o.format ≢ none → o.csv ≡ false
  pub newline : o.no_newline ≡ true → o.format ≢ none
  pub timefmt : o.timefmt ≢ none → o.format ≢ none
  pub time : (f : Bytes) → o.format ≡ some f → has_time f ≡ true → o.timefmt ≢ none
  pub daemon : o.daemon ≡ true → o.outfile ≢ none × (o.monitor ≡ true) × (o.syslog ≡ true)

consistent-Accepted : (o : Opts) → DaemonImplies o → consistent o ≡ true → Accepted o
unfolding consistent
consistent-Accepted o d h = record {
  filters = (validate_iff o.filters).0 (ground arith);
  one_output = ground arith;
  newline = ground arith;
  timefmt = ground arith;
  time = λ f e t. ground arith;
  daemon = ground arith;
}

-- A command line that is accepted ends without `?`; the files are the remaining arguments, the
-- events the union of those of the options -e. At most one filter is given, --csv and --format
-- are not both given, --no-newline and --timefmt come with --format and %T with --timefmt, and
-- the daemon writes to a file, monitors and logs to syslog.
pub parse_opts_lem :
    (strtol : Bytes → ℕ × ℕ × ℕ) (g : GetOpt) (o o' : Opts) (rest : List Bytes)
    → o.daemon ≡ false
    → parse_opts strtol g o ≡ some (o', rest)
    → (g.bad ≡ false)
      × (rest ≡ g.remaining)
      × (o'.events ≡ events_of o.events g.options)
      × Accepted o'
unfolding parse_opts end_format
parse_opts_lem strtol g o o' rest fresh h = elim (Option-cases (scan strtol o g.options)) [
  | inl e ↦ absurd (ground (arith, e, h))
  | inr (o1, e) ↦
      let ended : end_format o1 ≡ o' = ground (arith, e, h) in
      let ok : consistent o' ≡ true = ground (arith, e, h, ended) in
      let daemon : DaemonImplies o1 =
        scan-DaemonImplies strtol o o1 g.options (λ p. ground (arith, fresh, p)) e in
      let daemon' : DaemonImplies o' = ground (arith, ended, daemon) in
      (
        ground (arith, e, h),
        ground (arith, e, h),
        ground (arith, ended, scan-events strtol o o1 g.options e),
        consistent-Accepted o' daemon' ok,
      )
]
