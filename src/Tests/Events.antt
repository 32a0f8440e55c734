-- ===== src/Tests/Events.antt =====
-- The theorems on the names of events and on their reading.
use inotify_tools.Prelude.{
  replicate, ℕ, suc, zero, ◌+◌, ◌*◌, ◌≤◌, ◌<◌, ◌≡◌, refl, Bytes, Bool, true, false, Option, none,
  some, List, [], ◌∷◌, ◌++◌, arith, length, take, ltb, if◌then◌else◌, until_nul, All,
}
use inotify_tools.Prelude.Ord.{nat_ord, bytes_ord}
use inotify_tools.Prelude.Buffer.{codes}
use inotify_tools.BTreeMap.{get}
use inotify_tools.Handle.{EventPath, Regex, new}
use inotify_tools.Kernel.{Kernel}
use inotify_tools.Registry.{create_watch, replace_filename}
use inotify_tools.Registry.Replace.{renamed}
use inotify_tools.Names.{Event, filename_from_event, filename_from_wd}
use inotify_tools.Names.Laws.{
  filename_from_event_lem, filename_from_wd-create_watch, filename_from_wd-replace_filename,
}
use inotify_tools.Reader.{Reader, new_reader, cap}
use inotify_tools.Reader.Wire.{IsEvent, encode, length-replicate}
use inotify_tools.Reader.Left.{drain}
use inotify_tools.Reader.Remaining.{encodes, counted, counted_all}
use inotify_tools.Reader.Batch.{asked, batch_lem}
use inotify_tools.Reader.Next.{next_events}
use inotify_tools.Reader.Split.{fields, Partial, asked_for, next_events-Partial}
use inotify_tools.Tests.Registry.{handle, the_watch, handle-Inv, found, system}

abbrev pub created : Event
created = record { wd = 1; mask = 0x100; cookie = 0; len = 16; name = codes "x" }

filename_from_event_lem_example :
    (path : EventPath) × (s' : ℕ) × (filename_from_event system handle created 0 ≡ some (path, s'))
    × (path.dirnamelen ≤ length path.filename)
    × (take path.dirnamelen path.filename ++ path.eventname ≡ (
        if ltb path.dirnamelen (length path.filename)
        then path.filename
        else path.filename ++ (if ltb 0 16 then codes "x" else [])))
filename_from_event_lem_example = filename_from_event_lem system handle handle-Inv created 0

filename_from_wd-create_watch_example :
    filename_from_wd system (create_watch new 5 none (codes "/d") 0).0 5 0
    ≡ some (until_nul (codes "/d"), 0)
filename_from_wd-create_watch_example =
    filename_from_wd-create_watch system new 5 none (codes "/d") 0 0 (omega arith) refl
      (unfold new in refl) (unfold new in unfold get in refl)

filename_from_wd-replace_filename_example :
    filename_from_wd system (replace_filename handle (codes "/a/") (codes "/c/")) 1 0
    ≡ some ((renamed (codes "/a/") (codes "/c/") the_watch).filename, 0)
unfolding create_watch get new inotify_tools.BTreeMap.insert inotify_tools.Prelude.until_nul
    inotify_tools.BTreeMap.or_insert inotify_tools.Prelude.Ord.cmp_bytes
filename_from_wd-replace_filename_example =
    filename_from_wd-replace_filename system handle (codes "/a/") (codes "/c/") 1 1 the_watch 0
      handle-Inv (λ e. ground (arith, e)) (λ e. ground (arith, e)) (omega arith) refl refl found
      refl

abbrev pub moved : Event
moved = record { wd = 1; mask = 0x40; cookie = 7; len = 0; name = [] }

pub created-IsEvent : IsEvent created
created-IsEvent = record {
  wd_fits = omega arith;
  mask_fits = omega arith;
  cookie_fits = omega arith;
  len_fits = omega arith;
  clean = ((λ e. ground (arith, e)), tt);
  name_fits = omega arith;
}

pub moved-IsEvent : IsEvent moved
moved-IsEvent = record {
  wd_fits = omega arith;
  mask_fits = omega arith;
  cookie_fits = omega arith;
  len_fits = omega arith;
  clean = tt;
  name_fits = omega arith;
}

-- a system with a batch of the two events
abbrev busy : Kernel ℕ
busy = record system {
  ppoll = λ fd timeout s. (1, s + 1);
  fionread = λ fd s. (some 48, s + 10);
  read = λ fd size s. (some (encodes (created ∷ moved ∷ [])), s + 100);
}

abbrev pub no_match : Regex → Bytes → Bool
no_match re s = false

batch_lem_example :
    (r' : Reader) × (drain busy no_match 2 2 new_reader 5 1 0
      ≡ some (created ∷ moved ∷ [], r', asked busy new_reader 5 0))
    × (r'.first_byte ≡ 0)
    × (r'.lib ≡ counted_all new_reader.lib (created ∷ moved ∷ []))
batch_lem_example =
    batch_lem busy no_match 0 new_reader created (moved ∷ []) 5 1 0
      (unfold new_reader in unfold new in refl) (unfold new_reader in unfold new in refl)
      (unfold new_reader in refl) (omega arith)
      (unfold new_reader in omega (arith, length-replicate (2 * cap) 0))
      (created-IsEvent, (moved-IsEvent, tt)) refl
      (record { polled = refl; waiting = 48; asked = refl; enough = refl; got = refl })

-- the buffer ends in the first part of an event, and the system has the rest and another event
abbrev tail : Bytes
tail = 0 ∷ replicate 14 0

abbrev half_read : Reader
half_read = record new_reader {
  evbuf = encode moved ++ ((fields created ++ codes "x") ++ replicate (2 * cap) 0);
  first_byte = 16;
  bytes = 33;
}

abbrev resumed : Kernel ℕ
resumed = record system {
  ppoll = λ fd timeout s. (1, s + 1);
  fionread = λ fd s. (some 31, s + 10);
  read = λ fd size s. (some (tail ++ encodes (moved ∷ [])), s + 100);
}

half_read-Partial :
    Partial half_read (encode moved) (codes "x") tail (replicate (2 * cap) 0) created
unfolding new_reader new
half_read-Partial = record {
  inotify = refl;
  unfiltered = refl;
  whole = refl;
  here = refl;
  later = omega arith;
  full = refl;
  small = omega arith;
  real = created-IsEvent;
  parts = refl;
  missing = omega arith;
}

next_events-Partial_example :
    (r' : Reader) × (next_events resumed no_match 2 half_read 5 1 0
      ≡ some (some created, r', asked_for resumed half_read (codes "x") 5 0))
    × (r'.lib ≡ counted (record half_read.lib { error = 0 }) created)
next_events-Partial_example =
    next_events-Partial resumed no_match 0 half_read (encode moved) (codes "x") 0 (replicate 14 0)
      (replicate (2 * cap) 0) created (moved ∷ []) 5 1 0 half_read-Partial (omega arith)
      (omega (arith, length-replicate (2 * cap) 0)) (moved-IsEvent, tt) refl
      (record { polled = refl; waiting = 31; asked = refl; enough = refl; got = refl })
