-- ===== src/Options/Watch/Sort.antt =====
-- The sort key that inotifywatch ends with.
use inotify_tools.Prelude.{
  ℕ, ◌≡◌, refl, Bytes, Bool, true, false, Option, none, some, List, [], ◌∷◌, ◌++◌, arith,
  Option-cases, inl, inr,
}
use inotify_tools.Prelude.Buffer.{codes}
use inotify_tools.Events.{to_lower, eq_ignore_case, str_to_event, str_to_event_sep}
use inotify_tools.Options.Watch.{Opts, descending, sort_key, option, scan, parse_opts}

descending-access :
    (o : Opts) (sort_set : Bool)
    → descending o sort_set (codes "access") ≡ descending o sort_set (codes "total")
unfolding descending sort_key str_to_event eq_ignore_case inotify_tools.Prelude.until_nul
    inotify_tools.Prelude.eqb inotify_tools.Events.event_loop inotify_tools.Events.bad_separator
    inotify_tools.Events.first_value inotify_tools.Events.onestr_to_event
    inotify_tools.Prelude.position
descending-access o false = refl
descending-access o true = refl

option-access :
    (strtol : Bytes → ℕ × ℕ × ℕ) (o : Opts) (sort_set : Bool)
    → option strtol o sort_set b'd' (some (codes "access"))
      ≡ option strtol o sort_set b'd' (some (codes "total"))
unfolding option
option-access strtol o sort_set = descending-access o sort_set

scan-access :
    (strtol : Bytes → ℕ × ℕ × ℕ) (before after : List (ℕ × Option Bytes)) (o : Opts)
    (sort_set : Bool)
    → scan strtol o sort_set (before ++ ((b'd', some (codes "access")) ∷ after))
      ≡ scan strtol o sort_set (before ++ ((b'd', some (codes "total")) ∷ after))
unfolding scan
scan-access strtol [] after o sort_set = rw (option-access strtol o sort_set)
scan-access strtol ((c, arg) ∷ before) after o sort_set =
    elim (Option-cases (option strtol o sort_set c arg)) [
      | inl e ↦ rw e
      | inr ((o1, s1), e) ↦ rw e (scan-access strtol before after o1 s1)
    ]

-- Wherever it stands among the options, `-d access` has the result of `-d total`, since the key 1
-- of `access` negated is the key -1 of a descending total.
pub parse_opts-access :
    (strtol : Bytes → ℕ × ℕ × ℕ) (before after : List (ℕ × Option Bytes)) (bad : Bool)
    (remaining : List Bytes) (o : Opts)
    → parse_opts strtol
        (record {
          options = before ++ ((b'd', some (codes "access")) ∷ after);
          bad = bad;
          remaining = remaining;
        })
        o
      ≡ parse_opts strtol
          (record {
            options = before ++ ((b'd', some (codes "total")) ∷ after);
            bad = bad;
            remaining = remaining;
          })
          o
unfolding parse_opts
parse_opts-access strtol before after bad remaining o = rw (scan-access strtol before after o false)
