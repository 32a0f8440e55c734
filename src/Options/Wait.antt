-- ===== src/Options/Wait.antt =====
-- src/inotifywait.rs: `Opts` and `parse_opts`, without the messages.
pub mod Laws
use inotify_tools.Prelude.{
  ℕ, Bytes, Bool, true, false, not, ◌&&◌, ◌||◌, Option, none, some, List, [], ◌∷◌, ◌++◌, ◌==◌,
  if◌then◌else◌, is_some, is_none, bit_or, eqb, take,
}
use inotify_tools.Prelude.Word.{wrapping_inc}
use inotify_tools.Prelude.Buffer.{codes}
use inotify_tools.Handle.{◌>>=◌}
use inotify_tools.Filters.{Filters, no_filters, validate, is_timeout_option_valid, parse_event}
use inotify_tools.Options.Getopt.{GetOpt}

-- `struct Opts`
pub record Opts : Type 0 where
  pub events : ℕ
  pub monitor : Bool
  pub quiet : ℕ
  pub timeout : ℕ
  pub recursive : ℕ
  pub csv : Bool
  pub daemon : Bool
  pub syslog : Bool
  pub no_dereference : Bool
  pub format : Option Bytes
  pub timefmt : Option Bytes
  pub fromfile : Option Bytes
  pub outfile : Option Bytes
  pub filters : Filters
  pub no_newline : Bool
  pub fanotify : Bool
  pub filesystem : Bool

-- what `real_main` starts with; `timeout` is that of `BLOCKING_TIMEOUT`
unfoldable pub defaults : ℕ → Bool → Opts
defaults timeout fsnotify = record {
  events = 0;
  monitor = false;
  quiet = 0;
  timeout = timeout;
  recursive = 0;
  csv = false;
  daemon = false;
  syslog = false;
  no_dereference = false;
  format = none;
  timefmt = none;
  fromfile = none;
  outfile = none;
  filters = no_filters;
  no_newline = false;
  fanotify = fsnotify;
  filesystem = false;
}

-- what `parse_opts` does behind its loop with the format
unfoldable pub end_format : Opts → Opts
end_format o = elim o.format [
  | none ↦ o
  | some f ↦ if o.no_newline then o else record o { format = some (f ++ (10 ∷ [])) }
]

-- `f.windows(2).any(|w| w == b"%T")`
unfoldable pub has_time : Bytes → Bool
has_time [] = false
has_time (c ∷ f) = eqb (take 2 (c ∷ f)) (codes "%T") || has_time f

-- the checks of `parse_opts` behind its loop: whether it goes on
unfoldable pub consistent : Opts → Bool
unfolding has_time validate
consistent o =
    if not (validate o.filters)
    then false
    else if is_some o.format && o.csv
    then false
    else if is_none o.format && o.no_newline
    then false
    else if is_none o.format && is_some o.timefmt
    then false
    else if elim o.format [ none ↦ false | some f ↦ has_time f ] && is_none o.timefmt
    then false
    else not (o.daemon && is_none o.outfile)

module _ (strtol : Bytes → ℕ × ℕ × ℕ) where
  -- the `match` in the loop of `parse_opts`; `none` is its `return None`
  unfoldable pub option : Opts → ℕ → Option Bytes → Option Opts
  unfolding is_timeout_option_valid
  option o c arg =
      if c == b'h'
      then none
      else if c == b'm'
      then some (record o { monitor = true })
      else if c == b'q'
      then some (record o { quiet = wrapping_inc o.quiet })
      else if c == b'r'
      then some (record o { recursive = wrapping_inc o.recursive })
      else if c == b'I'
      then some (record o { fanotify = false })
      else if c == b'F'
      then some (record o { fanotify = true })
      else if c == b'S'
      then some (record o { filesystem = true; fanotify = true })
      else if c == b'c'
      then some (record o { csv = true })
      else if c == b'd'
      then some (record o { daemon = true; monitor = true; syslog = true })
      else if c == b's'
      then some (record o { syslog = true })
      else if c == b'P'
      then some (record o { no_dereference = true })
      else if c == b'f'
      then none
      else if c == b'n'
      then some (record o { format = arg })
      else if c == b'0'
      then some (record o { no_newline = true })
      else if c == b'i'
      then some (record o { timefmt = arg })
      else if c == b'a'
      then some (record o { filters = record o.filters { exc = arg } })
      else if c == b'b'
      then some (record o { filters = record o.filters { exci = arg } })
      else if c == b'j'
      then some (record o { filters = record o.filters { inc = arg } })
      else if c == b'k'
      then some (record o { filters = record o.filters { inci = arg } })
      else if c == b'z'
      then if is_some o.fromfile then none else some (record o { fromfile = arg })
      else if c == b'o'
      then if is_some o.outfile then none else some (record o { outfile = arg })
      else if c == b't'
      then (let (valid, value) = is_timeout_option_valid strtol o.timeout arg in
          if valid then some (record o { timeout = value }) else none)
      else if c == b'e'
      then (parse_event arg >>= λ event. some (record o { events = bit_or o.events event }))
      else some o

  -- the loop of `parse_opts`
  unfoldable pub scan : Opts → List (ℕ × Option Bytes) → Option Opts
  unfolding option
  scan o [] = some o
  scan o ((c, arg) ∷ options) = option o c arg >>= λ o. scan o options

  unfoldable pub parse_opts : GetOpt → Opts → Option (Opts × List Bytes)
  unfolding scan end_format consistent
  parse_opts g o = scan o g.options >>= λ o.
      let o = end_format o in
      if not (consistent o) then none else if g.bad then none else some (o, g.remaining)
