-- ===== src/Csv.antt =====
-- src/inotifywait.rs: the CSV output of an event.
pub mod RoundTrip
use inotify_tools.Prelude.{
  ℕ, zero, suc, ◌-◌, Bytes, Bool, true, false, ◌&&◌, ◌||◌, not, [], ◌∷◌, ◌++◌, ◌==◌, ltb,
  if◌then◌else◌, length, take, get_or, contains, is_empty,
}
use inotify_tools.Handle.{EventPath}
use inotify_tools.Events.{event_to_str}

-- `MAX_STRLEN`
abbrev pub max_strlen : ℕ
max_strlen = 4096

-- the loop of `csv_escape_len`: a quote is doubled
unfoldable pub double_quotes : Bytes → Bytes
double_quotes [] = []
double_quotes (c ∷ s) = let rest = double_quotes s in if c == b'"' then c ∷ c ∷ rest else c ∷ rest

unfoldable pub csv_escape_len : Bytes → ℕ → Bytes
unfolding double_quotes
csv_escape_len string len =
    if len == 0 || ltb max_strlen len || ltb (length string) len
    then []
    else if not (contains string b'"')
        && not (contains string b',')
        && not (contains string 10)
        && not (get_or string 0 0 == b' ')
        && not (get_or string (len - 1) 0 == b' ')
    then take len string
    else b'"' ∷ (double_quotes (take len string) ++ (b'"' ∷ []))

unfoldable pub csv_escape : Bytes → Bytes
unfolding csv_escape_len
csv_escape string = csv_escape_len string (length string)

-- What `output_event_csv` prints, for the path and the mask of the event; `evstr` is the buffer of
-- the handle for event names.
unfoldable pub output_event_csv : Bytes → EventPath → ℕ → Bytes
unfolding csv_escape
output_event_csv evstr path mask =
    let filename = csv_escape_len path.filename path.dirnamelen in
    let rest =
      csv_escape (event_to_str evstr mask) ++ (b',' ∷ (csv_escape path.eventname ++ (10 ∷ []))) in
    if is_empty filename then rest else filename ++ (b',' ∷ rest)
