-- ===== src/Tests/Tools.antt =====
-- The theorems on the tools' options and on `snprintf` at concrete inputs.
use inotify_tools.Prelude.{
  ◌⊎◌, ℕ, suc, ◌+◌, ◌≤◌, ◌<◌, ◌≡◌, ◌↔◌, refl, Bytes, Bool, true, false, Option, none, some, List,
  [], ◌∷◌, ◌++◌, arith, length, ◌%◌,
}
use inotify_tools.Prelude.Word.{minus_one, u32_mod}
use inotify_tools.Prelude.Buffer.{codes}
use inotify_tools.Handle.{new}
use inotify_tools.Filters.{Filters, no_filters, validate, install}
use inotify_tools.Filters.Laws.{given, validate_iff, chosen, with_filter, install_lem}
use inotify_tools.Options.Getopt.{GetOpt}
use inotify_tools.Options.Wait
use inotify_tools.Options.Wait.Laws.{events_of, Accepted, parse_opts_lem}
use inotify_tools.Options.Watch
use inotify_tools.Options.Watch.Sort.{parse_opts-access}
use inotify_tools.Paths.{slash, basename}
use inotify_tools.Paths.Basename.{NoSlash, Slashes, basename_lem}
use inotify_tools.Format.{Args, NString, snprintf, limit}
use inotify_tools.Format.Bounds.{snprintf-Within}
use inotify_tools.Format.Writes.{Within}
use inotify_tools.Format.Expand.{expand}
use inotify_tools.Format.Result.{snprintf_lem}

abbrev only_excluded : Filters
only_excluded = record { exc = some (codes "o$"); exci = none; inc = none; inci = none }

validate_iff_example : (validate only_excluded ≡ true) ↔ (given only_excluded ≤ 1)
validate_iff_example = validate_iff only_excluded

install_lem_example :
    install (λ pat flags. true) only_excluded new 1
    ≡ with_filter (λ pat flags. true) new 1 (chosen only_excluded)
unfolding validate
install_lem_example = install_lem (λ pat flags. true) only_excluded new 1 refl

-- strtol(3) that reads every text as 7
abbrev seven : Bytes → ℕ × ℕ × ℕ
seven text = (7, 0, length text)

abbrev command : GetOpt
command = record {
  options =
      (b'm', none)
      ∷ (b'e', some (codes "open"))
      ∷ (b't', some (codes "7"))
      ∷ (b'e', some (codes "modify"))
      ∷ [];
  bad = false;
  remaining = codes "dir" ∷ [];
}

abbrev chosen_opts : Wait.Opts
chosen_opts = record (Wait.defaults 0 false) { monitor = true; timeout = 7; events = 0x22 }

parse_opts_lem_example :
    (command.bad ≡ false)
    × ((codes "dir" ∷ []) ≡ command.remaining)
    × (chosen_opts.events ≡ events_of 0 command.options)
    × Accepted chosen_opts
unfolding Wait.defaults Wait.parse_opts inotify_tools.Filters.parse_event
    inotify_tools.Events.str_to_event inotify_tools.Events.bad_separator
    inotify_tools.Prelude.until_nul inotify_tools.Events.event_loop inotify_tools.Events.first_value
    inotify_tools.Events.onestr_to_event inotify_tools.Prelude.position inotify_tools.Prelude.eqb
parse_opts_lem_example =
    parse_opts_lem seven command (Wait.defaults 0 false) chosen_opts (codes "dir" ∷ []) refl refl

parse_opts-access_example :
    Watch.parse_opts seven
      (record {
        options = (b'v', none) ∷ (b'd', some (codes "access")) ∷ [];
        bad = false;
        remaining = [];
      })
      (Watch.defaults 0 false)
    ≡ Watch.parse_opts seven
        (record {
          options = (b'v', none) ∷ (b'd', some (codes "total")) ∷ [];
          bad = false;
          remaining = [];
        })
        (Watch.defaults 0 false)
parse_opts-access_example =
    parse_opts-access seven ((b'v', none) ∷ []) [] false [] (Watch.defaults 0 false)

unfoldable zeros : ℕ → Bytes
zeros Prim.Native.Nat.zero = []
zeros (suc n) = 0 ∷ zeros n

length-zeros : (n : ℕ) → length (zeros n) ≡ n
unfolding zeros
length-zeros Prim.Native.Nat.zero = refl
length-zeros (suc n) = omega (arith, length-zeros n)

abbrev an_event : Args
an_event = record {
  path = record { filename = codes "/tmp/"; dirnamelen = 5; eventname = codes "f" };
  mask = 2;
  cookie = 0x1f;
  evstr = [];
  time = some [];
}

abbrev empty : NString
empty = record { buf = zeros 4096; len = 0 }

snprintf-Within_example :
    (ret : ℕ) × (err : ℕ) × (out' : NString) × (snprintf an_event empty 0 8
        (some (codes "%w%f %c%n"))
      ≡ some (ret, err, out'))
    × Within (limit 8) empty.buf out'.buf
snprintf-Within_example =
    snprintf-Within an_event empty 0 8 (some (codes "%w%f %c%n")) (length-zeros 4096)

snprintf_lem_example :
    (rest : Bytes) × (snprintf an_event empty 0 100 (some (codes "%w%f %c%n"))
      ≡ some (
        (10 + minus_one) % u32_mod,
        0,
        record { buf = codes "/tmp/f 1f" ++ (10 ∷ []) ++ rest; len = 10 },
      ))
unfolding expand inotify_tools.Format.hex inotify_tools.Events.hex_digits
snprintf_lem_example =
    snprintf_lem an_event empty 0 100 (codes "%w%f %c%n") (codes "/tmp/f 1f" ++ (10 ∷ []))
      (omega arith) (length-zeros 4096) (omega arith) (omega arith) (omega arith) refl (omega arith)

basename_lem_example :
    (pre : Bytes) × (post : Bytes) × (codes "/usr/bin//"
      ≡ (pre ++ basename (codes "/usr/bin//")) ++ post)
    × Slashes post
    × (0 < length (basename (codes "/usr/bin//")))
    × ((basename (codes "/usr/bin//") ≡ slash ∷ [])
        ⊎ (NoSlash (basename (codes "/usr/bin//"))
            × ((pre ≡ []) ⊎ ((p : Bytes) × (pre ≡ p ++ (slash ∷ []))))))
basename_lem_example = basename_lem (codes "/usr/bin//") (λ e. ground (arith, e))
