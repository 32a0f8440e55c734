-- ===== src/Printing.antt =====
-- What is printed: `fprintf_to` and `printf` of libinotifytools/src/inotify.rs with `write_to` of
-- libinotifytools/src/cio.rs, and `validate_format` and `output_event` of src/inotifywait.rs.
-- A stream is the text that was written to it, none for NULL; fwrite(3) writes all it is given.
pub mod Laws
use inotify_tools.Prelude.{
  ℕ, Bytes, Bool, true, false, Option, none, some, List, [], ◌∷◌, ◌++◌, ◌==◌, if◌then◌else◌, take,
  is_empty, unwrap_or, replicate,
}
use Prim.Native.Nat.{min}
use inotify_tools.Prelude.Word.{minus_one}
use inotify_tools.Prelude.Buffer.{codes}
use inotify_tools.Consts.{in_all_events}
use inotify_tools.Csv.{max_strlen, output_event_csv}
use inotify_tools.Format.{Args, NString, snprintf, emsgsize}
use inotify_tools.Handle.{Inotifytools, EventPath, ◌>>=◌}
use inotify_tools.Kernel.{Kernel}
use inotify_tools.Names.{Event, filename_from_event}
use inotify_tools.Options.Wait.{Opts}

-- `NString::new` and `NString::as_bytes`
unfoldable pub new_nstring : NString
new_nstring = record { buf = replicate max_strlen 0; len = 0 }

unfoldable pub as_bytes : NString → Bytes
as_bytes out = take (min out.len max_strlen) out.buf

abbrev pub Stream : Type 0
Stream = Option Bytes

unfoldable pub write_to : Stream → Bytes → Stream
write_to none b = none
write_to (some written) b = if is_empty b then some written else some (written ++ b)

-- the handle with its string for printing, and the stream that is printed to
pub record Printer : Type 0 where
  pub lib : Inotifytools
  pub print_out : Option NString
  pub stream : Stream

-- the event that a format is tried with
abbrev pub fake_event : Event
fake_event = record { wd = 0; mask = in_all_events; cookie = 0; len = 3; name = [] }

abbrev pub wrong_format : Bytes
wrong_format = codes "Something is wrong with your format string.\n"

-- How trying a format ends, with the messages: `goes_on`, or `exit`.
pub data Tried : Type 0 where
  goes_on : Printer → List Bytes → Tried
  exits : List Bytes → Tried

-- `strftime fmt s` is what `strftime_now` gives in the state `s` of the system, and `evstr` is what
-- the buffer of `event_to_str_sep` holds.
module _ {W : Type 0} (k : Kernel W) (strftime : Bytes → W → Option Bytes) (evstr : Bytes) where
  -- what %T stands for
  unfoldable pub time_of : Inotifytools → W → Option Bytes
  time_of l s = elim l.timefmt [ none ↦ some [] | some fmt ↦ strftime fmt s ]

  -- what the directives of a format stand for, from the event and the handle
  unfoldable pub event_args : Inotifytools → Event → W → Option (Args × W)
  unfolding time_of
  event_args l ev s = filename_from_event k l ev s >>= λ (path, s'). some (
    record { path = path; mask = ev.mask; cookie = ev.cookie; evstr = evstr; time = time_of l s' },
    s',
  )

  -- the method `snprintf` with its path: what it returns, the handle and the string
  unfoldable pub snprintf_event :
      Inotifytools
      → NString
      → ℕ
      → Event
      → Option Bytes
      → W
      → Option (ℕ × Inotifytools × NString × W)
  snprintf_event l out size ev fmt s = event_args l ev s >>= λ (a, s').
      snprintf a out l.error size fmt >>= λ (ret, error, out').
      some (ret, record l { error = error }, out', s')

  unfoldable pub fprintf_to : Printer → Event → Option Bytes → W → Option (ℕ × Printer × W)
  unfolding write_to as_bytes
  fprintf_to p ev fmt s =
      let out = unwrap_or p.print_out new_nstring in
      snprintf_event p.lib out max_strlen ev fmt s >>= λ (ret, l, out', s').
      let written = if ret == minus_one then p.stream else write_to p.stream (as_bytes out') in
      some (ret, record { lib = l; print_out = some out'; stream = written }, s')

  -- `devnull` is whether /dev/null can be opened, and the message if it cannot
  unfoldable pub validate_format : Option Bytes → Printer → Bytes → W → Option (Tried × W)
  validate_format (some failure) p fmt s =
      some (goes_on p ((codes "Couldn't open /dev/null: " ++ (failure ++ codes "\n")) ∷ []), s)
  validate_format none p fmt s =
      fprintf_to (record p { stream = some [] }) fake_event (some fmt) s >>= λ (ret, p', s').
      if ret == minus_one
      then some (exits (wrong_format ∷ []), s')
      else some (goes_on (record p' { stream = p.stream }) [], s')

  -- `output_event` of inotifywait
  unfoldable pub output_event : Opts → Printer → Event → W → Option (Printer × W)
  output_event o p ev s =
      if o.csv
      then (filename_from_event k p.lib ev s >>= λ (path, s').
          some (record p { stream = write_to p.stream (output_event_csv evstr path ev.mask) }, s'))
      else (fprintf_to p ev (some (unwrap_or o.format (codes "%w %,e %f\n"))) s >>= λ (ret, p', s').
          some (p', s'))

  -- the events of a list, one after the other
  unfoldable pub output_events : Opts → Printer → List Event → W → Option (Printer × W)
  output_events o p [] s = some (p, s)
  output_events o p (ev ∷ evs) s = output_event o p ev s >>= λ (p', s'). output_events o p' evs s'
