-- ===== src/Api/Output.antt =====
-- libinotifytools/src/ffi.rs: the functions that print, and those that tell names. None is a panic
-- of the library. A length is stored only where its pointer is not NULL, which `wanted` tells.
use inotify_tools.Prelude.{
  ℕ, Bytes, Bool, Option, none, some, [], ltb, if◌then◌else◌, length, drop, until_nul,
}
use inotify_tools.Prelude.Word.{minus_one}
use inotify_tools.Api.{
  Pointer, opt_bytes, InotifyEvent, event_from_c, malloc_cstr, Global, lib, set_lib,
}
use inotify_tools.Csv.{max_strlen}
use inotify_tools.Events.{str_to_event, str_to_event_sep, event_to_str_sep}
use inotify_tools.Format.{NString}
use inotify_tools.Handle.{◌>>=◌}
use inotify_tools.Kernel.{Kernel}
use inotify_tools.Names.{filename_from_watch, filename_from_wd, dirname_len, dirpath_from_event}
use inotify_tools.Printing.{Stream, Printer, snprintf_event, fprintf_to}

unfoldable pub inotifytools_str_to_event : Pointer → ℕ
inotifytools_str_to_event event = str_to_event (opt_bytes event)

unfoldable pub inotifytools_str_to_event_sep : Pointer → ℕ → ℕ
inotifytools_str_to_event_sep event sep = str_to_event_sep (opt_bytes event) sep

-- `evstr` is what the buffer of `event_to_str_sep` holds; the pointer leads into it
unfoldable pub inotifytools_event_to_str_sep : Bytes → Global → ℕ → ℕ → Bytes × Global
inotifytools_event_to_str_sep evstr g events sep = (event_to_str_sep evstr events sep, some (lib g))

unfoldable pub inotifytools_event_to_str : Bytes → Global → ℕ → Bytes × Global
inotifytools_event_to_str evstr g events = (event_to_str_sep evstr events b',', some (lib g))

abbrev pub stored : Bool → ℕ → Option ℕ
stored wanted n = if wanted then some n else none

module _ {W : Type 0} (k : Kernel W) where
  unfoldable pub inotifytools_dirname_from_event :
      Global → Option InotifyEvent → Bool → W → Option (Bytes × Option ℕ × Global × W)
  inotifytools_dirname_from_event g event wanted s =
      filename_from_wd k (lib g).reader.lib (event_from_c event).wd s >>= λ (f, s').
      some (f, stored wanted (dirname_len (lib g).reader.lib f), some (lib g), s')

  -- the filename, the event's name behind its pointer, and the length of the directory
  unfoldable pub inotifytools_filename_from_event :
      Global → Option InotifyEvent → Bool → W → Option (Bytes × Bytes × Option ℕ × Global × W)
  inotifytools_filename_from_event g event wanted s =
      let name : Bytes = elim event [
        | none ↦ []
        | some e ↦ if ltb 0 e.len then until_nul e.behind else []
      ] in
      filename_from_wd k (lib g).reader.lib (event_from_c event).wd s >>= λ (f, s').
      let dl = dirname_len (lib g).reader.lib f in
      some (f, if ltb dl (length f) then drop dl f else name, stored wanted dl, some (lib g), s')

  unfoldable pub inotifytools_dirpath_from_event :
      Bool → Global → Option InotifyEvent → W → Option (Pointer × Global × W)
  inotifytools_dirpath_from_event room g event s =
      dirpath_from_event k (lib g).reader.lib (event_from_c event) s >>= λ (path, s'). elim path [
        | none ↦ some (none, some (lib g), s')
        | some p ↦ some (malloc_cstr room p, some (lib g), s')
      ]

  -- The pointer is to the watch with the id, or to none that is live; `none` is NULL.
  unfoldable pub inotifytools_filename_from_watch :
      Global → Option ℕ → W → Option (Bytes × Global × W)
  inotifytools_filename_from_watch g none s = some ([], some (lib g), s)
  inotifytools_filename_from_watch g (some w) s =
      filename_from_watch k (lib g).reader.lib w s >>= λ (f, s'). some (f, some (lib g), s')

  unfoldable pub inotifytools_filename_from_wd : Global → ℕ → W → Option (Bytes × Global × W)
  inotifytools_filename_from_wd g wd s =
      filename_from_wd k (lib g).reader.lib wd s >>= λ (f, s'). some (f, some (lib g), s')

module _ {W : Type 0} (k : Kernel W) (strftime : Bytes → W → Option Bytes) (evstr : Bytes) where
  unfoldable pub inotifytools_fprintf :
      Global → Stream → Option InotifyEvent → Pointer → W → Option (ℕ × Stream × Global × W)
  inotifytools_fprintf g file event fmt s =
      let p : Printer = record {
        lib = (lib g).reader.lib;
        print_out = (lib g).print_out;
        stream = file;
      } in
      fprintf_to k strftime evstr p (event_from_c event) (opt_bytes fmt) s >>= λ (ret, p', s').
      some (
        ret,
        p'.stream,
        some (record { reader = record (lib g).reader { lib = p'.lib }; print_out = p'.print_out }),
        s',
      )

  -- `stdout` is the standard output
  unfoldable pub inotifytools_printf :
      Global → Stream → Option InotifyEvent → Pointer → W → Option (ℕ × Stream × Global × W)
  inotifytools_printf g stdout event fmt s = inotifytools_fprintf g stdout event fmt s

  -- what is returned, and what `out` points to
  unfoldable pub inotifytools_snprintf :
      Global
      → Option NString
      → ℕ
      → Option InotifyEvent
      → Pointer
      → W
      → Option (ℕ × Option NString × Global × W)
  inotifytools_snprintf g none size event fmt s = some (minus_one, none, g, s)
  inotifytools_snprintf g (some out) size event fmt s =
      snprintf_event k strftime evstr (lib g).reader.lib out size (event_from_c event)
        (opt_bytes fmt) s
      >>= λ (ret, l, out', s'). some (ret, some out', set_lib (lib g) l, s')

  unfoldable pub inotifytools_sprintf :
      Global
      → Option NString
      → Option InotifyEvent
      → Pointer
      → W
      → Option (ℕ × Option NString × Global × W)
  inotifytools_sprintf g out event fmt s = inotifytools_snprintf g out max_strlen event fmt s
