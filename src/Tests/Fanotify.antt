-- ===== src/Tests/Fanotify.antt =====
-- The conversion of a fanotify event, at an event on a file with a watch.
use inotify_tools.Prelude.{
  ℕ, suc, ◌+◌, ◌≡◌, ◌∙◌, refl, Bytes, none, some, [], ◌∷◌, ◌++◌, arith, length, replicate,
  length-append,
}
use inotify_tools.Prelude.Buffer.{codes}
use inotify_tools.Fid.{info_type_dfid_name}
use inotify_tools.Handle.{Watch, new}
use inotify_tools.Names.{Event}
use inotify_tools.Reader.{Reader, new_reader, cap, le_u32, current_event}
use inotify_tools.Reader.Convert.{convert_fanotify_event}
use inotify_tools.Reader.Converted.{Says, convert_fanotify_event_lem}
use inotify_tools.Reader.Wire.{IsEvent, length-replicate}
use inotify_tools.Registry.{create_watch, new_watch}
use inotify_tools.Tests.Registry.{system}

-- the fid of the directory of the file "x", with its name
abbrev the_fid : Bytes
the_fid =
    info_type_dfid_name ∷ 0 ∷ 28 ∷ 0 ∷ 1 ∷ 0 ∷ 0 ∷ 0 ∷ 2 ∷ 0 ∷ 0 ∷ 0 ∷ 4 ∷ 0 ∷ 0 ∷ 0 ∷ 1 ∷ 0 ∷ 0 ∷ 0
    ∷ 1 ∷ 2 ∷ 3 ∷ 4 ∷ b'x' ∷ 0 ∷ 0 ∷ 0 ∷ []

-- 52 bytes, a version, the mask 0x100, no descriptor, and the process 9
abbrev metadata : Bytes
metadata =
    52 ∷ 0 ∷ 0 ∷ 0 ∷ 3 ∷ 0 ∷ 24 ∷ 0 ∷ 0 ∷ 1 ∷ 0 ∷ 0 ∷ 0 ∷ 0 ∷ 0 ∷ 0 ∷ 255 ∷ 255 ∷ 255 ∷ 255 ∷ 9 ∷ 0
    ∷ 0 ∷ 0 ∷ []

unfoldable padding : Bytes
padding = replicate 65484 0

abbrev first_half : Bytes
first_half = metadata ++ (the_fid ++ padding)

full : length first_half ≡ cap
unfolding padding
full = omega (arith, length-replicate 65484 0)

abbrev blank : Bytes
blank = 0 ∷ 0 ∷ 0 ∷ 0 ∷ []

abbrev holder : Reader
holder = record new_reader {
  lib = (create_watch new 0 (some the_fid) (codes "/d/x") 0).0;
  evbuf = first_half ++ (blank ++ (blank ++ (le_u32 0 ++ (blank ++ (blank ++ [])))));
}

abbrev converted : Event
converted = record { wd = 1; mask = 0x100; cookie = 0; len = 4; name = codes "x" }

abbrev watched : Watch
watched = new_watch 1 (some the_fid) (codes "/d/x") 0

converted-IsEvent : IsEvent converted
converted-IsEvent = record {
  wd_fits = omega arith;
  mask_fits = omega arith;
  cookie_fits = omega arith;
  len_fits = omega arith;
  clean = ((λ e. ground (arith, e)), tt);
  name_fits = omega arith;
}

holder-Says : Says holder first_half [] 1 watched converted
unfolding create_watch new new_reader inotify_tools.Reader.rd_u32
    inotify_tools.Reader.Convert.trimmed inotify_tools.Fid.hdr_len inotify_tools.Fid.handle_bytes
    inotify_tools.Registry.watch_from_fid inotify_tools.BTreeMap.get
    inotify_tools.BTreeMap.or_insert inotify_tools.BTreeMap.insert inotify_tools.Fid.fid_key
    inotify_tools.Prelude.Ord.cmp_bytes inotify_tools.Registry.watch
    inotify_tools.Reader.Convert.name_len_at
holder-Says = record {
  longer = refl;
  fid = refl;
  inside = omega arith;
  room = (blank, blank, blank, blank, refl, refl, refl, refl, refl);
  found = refl;
  live = refl;
  wd = refl;
  mask = refl;
  len = refl;
  small = omega arith;
  named = refl;
}

convert_fanotify_event_lem_example :
    (pid : ℕ) × (r' : Reader) × (convert_fanotify_event system holder 0 ≡ some (some pid, r', 0))
    × (r'.lib ≡ holder.lib)
    × (current_event r' ≡ converted)
convert_fanotify_event_lem_example =
    convert_fanotify_event_lem system holder first_half [] full 1 watched converted 0
      converted-IsEvent holder-Says
