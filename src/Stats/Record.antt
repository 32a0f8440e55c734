-- ===== src/Stats/Record.antt =====
-- What the counters hold after a sequence of events: the number of events with the flag.
use inotify_tools.Prelude.{
  ℕ, ◌+◌, ◌%◌, ◌<◌, ◌≡◌, Bool, ◌||◌, Option, none, some, List, [], ◌∷◌, arith, ◌==◌, if◌then◌else◌,
  ap, ◌∙◌, inl, inr, Option-cases,
}
use inotify_tools.Prelude.Word.{has, u32_mod, wrapping_inc}
use inotify_tools.Stats.{WatchStats, no_events, get, inc, record_event}

-- Whether an event with this mask counts for `event`; 0 asks for the total.
abbrev pub counts : ℕ → ℕ → Bool
counts event mask = event == 0 || has mask event

-- What an event does to the counter that `get` reads for `event`.
abbrev pub bump : ℕ → ℕ → Option ℕ → Option ℕ
bump event mask none = none
bump event mask (some c) = some (if counts event mask then wrapping_inc c else c)

bump_flag :
    (event mask flag c : ℕ) (r r' : Option ℕ)
    → 0 < flag
    → r' ≡ bump event mask r
    → (if event == flag then some (inc mask flag c) else r')
      ≡ bump event mask (if event == flag then some c else r)
unfolding inc
bump_flag event mask flag c r r' pos h = ground arith

bump_total :
    (event mask c : ℕ)
    → (if event == 0 then some (wrapping_inc c) else none)
      ≡ bump event mask (if event == 0 then some c else none)
bump_total event mask c = ground arith

-- `get` after one event: the counter that is asked for goes up by one modulo 2^32 if the event
-- has the flag (for 0: always), stays as it is if not, and is unknown exactly where it was.
pub get-record_event :
    (s : WatchStats) (mask event : ℕ)
    → get (record_event s mask) event ≡ bump event mask (get s event)
unfolding get record_event
get-record_event s mask event = bump_flag event mask _ s.access _ _ (omega arith) (
    bump_flag event mask _ s.modify _ _ (omega arith) (
      bump_flag event mask _ s.attrib _ _ (omega arith) (
        bump_flag event mask _ s.close_write _ _ (omega arith) (
          bump_flag event mask _ s.close_nowrite _ _ (omega arith) (
            bump_flag event mask _ s.opened _ _ (omega arith) (
              bump_flag event mask _ s.moved_from _ _ (omega arith) (
                bump_flag event mask _ s.moved_to _ _ (omega arith) (
                  bump_flag event mask _ s.create _ _ (omega arith) (
                    bump_flag event mask _ s.delete _ _ (omega arith) (
                      bump_flag event mask _ s.delete_self _ _ (omega arith) (
                        bump_flag event mask _ s.unmount _ _ (omega arith) (
                          bump_flag event mask _ s.move_self _ _ (omega arith)
                            (bump_total event mask s.total)))))))))))))

-- The number of masks in the list that count for `event`.
pub occurrences : ℕ → List ℕ → ℕ
occurrences event [] = 0
occurrences event (m ∷ ms) = let n = occurrences event ms in if counts event m then n + 1 else n

-- `record` over a list of events
unfoldable pub record_all : WatchStats → List ℕ → WatchStats
record_all s [] = s
record_all s (m ∷ ms) = record_all (record_event s m) ms

get-record_all_from :
    (ms : List ℕ) (s : WatchStats) (event c : ℕ)
    → get s event ≡ some c
    → c < u32_mod
    → get (record_all s ms) event ≡ some ((c + occurrences event ms) % u32_mod)
unfolding record_all occurrences
get-record_all_from [] s event c h fits = ground arith
get-record_all_from (m ∷ ms) s event c h fits = ground (
  arith,
  get-record_event s m event,
  get-record_all_from ms (record_event s m) event c,
  get-record_all_from ms (record_event s m) event (wrapping_inc c),
)

get-record_all-none :
    (ms : List ℕ) (s : WatchStats) (event : ℕ)
    → get s event ≡ none
    → get (record_all s ms) event ≡ none
unfolding record_all
get-record_all-none [] s event h = h
get-record_all-none (m ∷ ms) s event h =
    get-record_all-none ms (record_event s m) event (ground (arith, get-record_event s m event))

pub get-no_events : (event c : ℕ) → get no_events event ≡ some c → c ≡ 0
unfolding get
get-no_events event c h = ground arith

-- From zero, each counter holds the number of the events that count for it, modulo 2^32; and an
-- event that `get` does not know is not known afterwards either.
pub get-record_all :
    (ms : List ℕ) (event : ℕ)
    → get (record_all no_events ms) event
      ≡ elim (get no_events event) [ none ↦ none | some _ ↦ some (occurrences event ms % u32_mod) ]
get-record_all ms event = elim (Option-cases (get no_events event)) [
  | inl unknown ↦ rw unknown (get-record_all-none ms no_events event unknown)
  | inr (c, known) ↦ rw known (
      get-record_all_from ms no_events event c known (omega (arith, get-no_events event c known))
      ∙ ap some (zero_start event ms c (get-no_events event c known)))
]
  where
    zero_start :
        (event : ℕ) (ms : List ℕ) (c : ℕ)
        → c ≡ 0
        → (c + occurrences event ms) % u32_mod ≡ occurrences event ms % u32_mod
    zero_start event ms c h = omega arith
