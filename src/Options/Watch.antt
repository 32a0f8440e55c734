-- ===== src/Options/Watch.antt =====
-- src/inotifywatch.rs: `Opts`, `sort_key` and `parse_opts`, without the messages.
pub mod Sort
use inotify_tools.Prelude.{
  ℕ, Bytes, Bool, true, false, not, ◌&&◌, ◌||◌, Option, none, some, List, [], ◌∷◌, ◌==◌,
  if◌then◌else◌, is_some, unwrap_or, bit_or, bit_and,
}
use inotify_tools.Prelude.Word.{wrapping_inc, wrapping_neg, minus_one, is_neg}
use inotify_tools.Prelude.Buffer.{codes}
use inotify_tools.Consts.{in_all_events}
use inotify_tools.Handle.{◌>>=◌}
use inotify_tools.Events.{str_to_event, eq_ignore_case}
use inotify_tools.Filters.{Filters, no_filters, validate, is_timeout_option_valid, parse_event}
use inotify_tools.Options.Getopt.{GetOpt}

-- `struct Opts`
pub record Opts : Type 0 where
  pub events : ℕ
  pub timeout : ℕ
  pub verbose : ℕ
  pub zero : ℕ
  pub sort : ℕ
  pub recursive : ℕ
  pub no_dereference : ℕ
  pub fromfile : Option Bytes
  pub filters : Filters
  pub fanotify : Bool
  pub filesystem : Bool

-- what `real_main` starts with; `timeout` is that of `BLOCKING_TIMEOUT`
unfoldable pub defaults : ℕ → Bool → Opts
defaults timeout fsnotify = record {
  events = 0;
  timeout = timeout;
  verbose = 0;
  zero = 0;
  sort = minus_one;
  recursive = 0;
  no_dereference = 0;
  fromfile = none;
  filters = no_filters;
  fanotify = fsnotify;
  filesystem = false;
}

unfoldable pub sort_key : Bytes → Option ℕ
sort_key optarg =
    let event = str_to_event (some optarg) in if event == minus_one then none else some event

-- the loop's `-a`, and whether a sort key is set then
unfoldable pub ascending : Opts → Bool → Bytes → Option (Opts × Bool)
unfolding sort_key
ascending o sort_set optarg =
    if sort_set
    then none
    else if eq_ignore_case optarg (codes "total")
    then some (record o { sort = 0 }, true)
    else if eq_ignore_case optarg (codes "move")
    then none
    else if eq_ignore_case optarg (codes "close")
    then none
    else (sort_key optarg >>= λ key. some (record o { sort = key }, true))

-- the loop's `-d`
unfoldable pub descending : Opts → Bool → Bytes → Option (Opts × Bool)
unfolding sort_key
descending o sort_set optarg =
    if sort_set
    then none
    else if eq_ignore_case optarg (codes "total")
    then some (record o { sort = minus_one }, sort_set)
    else (sort_key optarg >>= λ key. some (record o { sort = wrapping_neg key }, sort_set))

-- `sort.wrapping_abs()`
abbrev pub wrapping_abs : ℕ → ℕ
wrapping_abs w = if is_neg w then wrapping_neg w else w

-- whether the rows are sorted by an event that is not watched
unfoldable pub unwatched : Opts → Bool
unwatched o =
    let watched = if o.events == 0 then in_all_events else o.events in
    not (o.sort == 0) && not (o.sort == minus_one) && bit_and (wrapping_abs o.sort) watched == 0

module _ (strtol : Bytes → ℕ × ℕ × ℕ) where
  -- the `match` in the loop of `parse_opts`; `none` is its `return None`
  unfoldable pub option : Opts → Bool → ℕ → Option Bytes → Option (Opts × Bool)
  unfolding is_timeout_option_valid ascending descending
  option o sort_set c arg =
      if c == b'h'
      then none
      else if c == b'v'
      then some (record o { verbose = wrapping_inc o.verbose }, sort_set)
      else if c == b'r'
      then some (record o { recursive = wrapping_inc o.recursive }, sort_set)
      else if c == b'I'
      then some (record o { fanotify = false }, sort_set)
      else if c == b'F'
      then some (record o { fanotify = true }, sort_set)
      else if c == b'S'
      then some (record o { filesystem = true; fanotify = true }, sort_set)
      else if c == b'P'
      then some (record o { no_dereference = wrapping_inc o.no_dereference }, sort_set)
      else if c == b'z'
      then some (record o { zero = wrapping_inc o.zero }, sort_set)
      else if c == b'c'
      then some (record o { filters = record o.filters { exc = arg } }, sort_set)
      else if c == b'b'
      then some (record o { filters = record o.filters { exci = arg } }, sort_set)
      else if c == b'j'
      then some (record o { filters = record o.filters { inc = arg } }, sort_set)
      else if c == b'k'
      then some (record o { filters = record o.filters { inci = arg } }, sort_set)
      else if c == b'o'
      then if is_some o.fromfile then none else some (record o { fromfile = arg }, sort_set)
      else if c == b't'
      then (let (valid, value) = is_timeout_option_valid strtol o.timeout arg in
          if valid then some (record o { timeout = value }, sort_set) else none)
      else if c == b'e'
      then (parse_event arg >>= λ event.
          some (record o { events = bit_or o.events event }, sort_set))
      else if c == b'a'
      then ascending o sort_set (unwrap_or arg [])
      else if c == b'd'
      then descending o sort_set (unwrap_or arg [])
      else some (o, sort_set)

  -- the loop of `parse_opts`
  unfoldable pub scan : Opts → Bool → List (ℕ × Option Bytes) → Option Opts
  unfolding option
  scan o sort_set [] = some o
  scan o sort_set ((c, arg) ∷ options) = option o sort_set c arg >>= λ (o, s). scan o s options

  unfoldable pub parse_opts : GetOpt → Opts → Option (Opts × List Bytes)
  unfolding scan unwatched validate
  parse_opts g o = scan o false g.options >>= λ o.
      if unwatched o
      then none
      else if not (validate o.filters)
      then none
      else if g.bad
      then none
      else some (o, g.remaining)
