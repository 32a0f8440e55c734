-- ===== src/Filters.antt =====
-- src/common.rs: the filter options of the two tools, `is_timeout_option_valid` and
-- `parse_event`; libinotifytools/src/inotify.rs: `do_ignore_events_by_regex` and its two callers.
-- The messages that the source prints are left out.
pub mod Laws
use inotify_tools.Prelude.{
  ℕ, ◌+◌, Bytes, Bool, true, false, not, ◌&&◌, ◌||◌, Option, none, some, ◌==◌, ltb, if◌then◌else◌,
  length, is_empty, is_some, unwrap_or, until_nul, bit_or, [],
}
use inotify_tools.Prelude.Word.{minus_one}
use inotify_tools.Handle.{Inotifytools, Regex}
use inotify_tools.Events.{str_to_event}

-- `struct Filters`
pub record Filters : Type 0 where
  pub exc : Option Bytes
  pub exci : Option Bytes
  pub inc : Option Bytes
  pub inci : Option Bytes

abbrev pub no_filters : Filters
no_filters = record { exc = none; exci = none; inc = none; inci = none }

unfoldable pub has_include : Filters → Bool
has_include f = is_some f.inc || is_some f.inci

unfoldable pub validate : Filters → Bool
unfolding has_include
validate f =
    if is_some f.exc && is_some f.exci
    then false
    else if is_some f.inc && is_some f.inci
    then false
    else if has_include f && (is_some f.exc || is_some f.exci)
    then false
    else true

abbrev pub einval : ℕ
einval = 22

abbrev pub reg_extended : ℕ
reg_extended = 1

abbrev pub reg_icase : ℕ
reg_icase = 2

abbrev pub reg_nosub : ℕ
reg_nosub = 8

-- `compiles pattern flags` is whether regcomp(3) returns 0
module _ (compiles : Bytes → ℕ → Bool) where
  unfoldable pub do_ignore_events_by_regex :
      Inotifytools → Option Bytes → ℕ → Bool → ℕ → Bool × Inotifytools
  do_ignore_events_by_regex lib none flags invert recursive = (true, record lib { regex = none })
  do_ignore_events_by_regex lib (some pattern) flags invert recursive =
      let pat = until_nul pattern in
      let cflags = bit_or flags reg_nosub in
      let reset = record lib {
        regex = none;
        invert_regexp = invert;
        recursive_watch = recursive;
      } in
      if compiles pat cflags
      then (true, record reset { regex = some (record { pat = pat; cflags = cflags }) })
      else (false, record reset { error = einval })

  unfoldable pub ignore_events_by_regex : Inotifytools → Option Bytes → ℕ → ℕ → Bool × Inotifytools
  unfolding do_ignore_events_by_regex
  ignore_events_by_regex lib pattern flags recursive =
      do_ignore_events_by_regex lib pattern flags false recursive

  unfoldable pub ignore_events_by_inverted_regex :
      Inotifytools → Option Bytes → ℕ → ℕ → Bool × Inotifytools
  unfolding do_ignore_events_by_regex
  ignore_events_by_inverted_regex lib pattern flags recursive =
      do_ignore_events_by_regex lib pattern flags true recursive

  -- the body of the two loops of `install`: a filter that is not given is passed over
  unfoldable pub install_one : Inotifytools → Option Bytes → ℕ → Bool → ℕ → Bool × Inotifytools
  unfolding ignore_events_by_regex ignore_events_by_inverted_regex
  install_one lib none flags invert recursive = (true, lib)
  install_one lib (some re) flags invert recursive =
      if invert
      then ignore_events_by_inverted_regex lib (some re) flags recursive
      else ignore_events_by_regex lib (some re) flags recursive

  -- the next step of `install`, if the one before succeeded
  abbrev pub and_then :
      Bool × Inotifytools → (Inotifytools → Bool × Inotifytools) → Bool × Inotifytools
  and_then (ok, lib) f = if ok then f lib else (false, lib)

  unfoldable pub install : Filters → Inotifytools → ℕ → Bool × Inotifytools
  unfolding install_one
  install f lib recursive =
      let icase = bit_or reg_extended reg_icase in
      and_then (install_one lib f.exc reg_extended false recursive) (λ l.
        and_then (install_one l f.exci icase false recursive) (λ l.
          and_then (install_one l f.inc reg_extended true recursive)
            (λ l. install_one l f.inci icase true recursive)))

-- `strtol text` is the value that strtol(3) with base 10 returns, what it sets errno to, and the
-- number of bytes that it consumes.
module _ (strtol : Bytes → ℕ × ℕ × ℕ) where
  -- whether the value is valid, and what `timeout` is then
  unfoldable pub is_timeout_option_valid : ℕ → Option Bytes → Bool × ℕ
  is_timeout_option_valid timeout none = (false, timeout)
  is_timeout_option_valid timeout (some o) =
      let (value, errno, consumed) = strtol o in
      if is_empty o
      then (false, timeout)
      else if not (errno == 0)
      then (false, value)
      else (consumed == length o, value)

unfoldable pub parse_event : Option Bytes → Option ℕ
parse_event optarg =
    let event = str_to_event (some (unwrap_or optarg [])) in
    if event == minus_one then none else some event
