-- ===== src/Filters/Laws.antt =====
-- Which combinations of filters are accepted, and what is installed for them.
use inotify_tools.Prelude.{
  ℕ, ◌+◌, ◌≤◌, ◌≡◌, ◌↔◌, Bytes, Bool, true, false, Option, none, some, arith, if◌then◌else◌,
  is_some, until_nul, bit_or,
}
use inotify_tools.Handle.{Inotifytools}
use inotify_tools.Filters.{
  Filters, has_include, validate, do_ignore_events_by_regex, ignore_events_by_regex,
  ignore_events_by_inverted_regex, install_one, install, reg_extended, reg_icase, reg_nosub, einval,
}

-- the number of filters that are given
unfoldable pub given : Filters → ℕ
given f =
    let one = λ (o : Option Bytes). if is_some o then 1 else 0 in
    one f.exc + one f.exci + one f.inc + one f.inci

-- `validate` accepts exactly the filters of which at most one is given.
pub validate_iff : (f : Filters) → (validate f ≡ true) ↔ (given f ≤ 1)
unfolding validate has_include given
validate_iff f = ground arith

-- the filter that counts, with its flags and whether it is an `include`
unfoldable pub chosen : Filters → Option (Bytes × ℕ × Bool)
chosen f = elim f.exc [
  | some p ↦ some (p, reg_extended, false)
  | none ↦ elim f.exci [
    | some p ↦ some (p, bit_or reg_extended reg_icase, false)
    | none ↦ elim f.inc [
      | some p ↦ some (p, reg_extended, true)
      | none ↦ elim f.inci [ some p ↦ some (p, bit_or reg_extended reg_icase, true) | none ↦ none ]
    ]
  ]
]

-- the handle with one filter in force
unfoldable pub with_filter :
    (Bytes → ℕ → Bool) → Inotifytools → ℕ → Option (Bytes × ℕ × Bool) → Bool × Inotifytools
with_filter compiles lib recursive none = (true, lib)
with_filter compiles lib recursive (some (p, flags, invert)) =
    let pat = until_nul p in
    let cflags = bit_or flags reg_nosub in
    if compiles pat cflags
    then (
      true,
      record lib {
        regex = some (record { pat = pat; cflags = cflags });
        invert_regexp = invert;
        recursive_watch = recursive;
      },
    )
    else (
      false,
      record lib {
        regex = none;
        invert_regexp = invert;
        recursive_watch = recursive;
        error = einval;
      },
    )

-- Filters that `validate` accepts install the one filter that is given: its pattern up to the
-- first NUL, with its flags and without subexpressions. If there is none, the handle stays as it
-- is; if the pattern does not compile, no filter is in force and the error is EINVAL.
pub install_lem :
    (compiles : Bytes → ℕ → Bool) (f : Filters) (lib : Inotifytools) (recursive : ℕ)
    → validate f ≡ true
    → install compiles f lib recursive ≡ with_filter compiles lib recursive (chosen f)
unfolding validate has_include install install_one ignore_events_by_regex
    ignore_events_by_inverted_regex do_ignore_events_by_regex with_filter chosen
install_lem compiles f lib recursive valid = ground arith
