-- ===== src/Handle.antt =====
-- libinotifytools/src/inotify.rs: the library handle `Inotifytools`, its watches and `new`.
use inotify_tools.Prelude.{ℕ, Bytes, Bool, false, Option, none, some, List, []}
use inotify_tools.Prelude.Word.{minus_one}
use inotify_tools.BTreeMap.{BTreeMap}
use inotify_tools.Stats.{WatchStats, no_events}
use inotify_tools.Fid.{FidKey}

-- `struct Watch`. A `CString` is its bytes, none of them NUL.
pub record Watch : Type 0 where
  pub fid : Option Bytes
  pub filename : Bytes
  pub wd : ℕ
  pub dirf : ℕ
  pub stats : WatchStats

-- A compiled regular expression stands for its pattern and the flags that it was compiled with.
pub record Regex : Type 0 where
  pub pat : Bytes
  pub cflags : ℕ

-- `struct Inotifytools`, without the event buffer and the buffers that only serve the C API.
-- `closed` is no field of the source: it records the descriptors that `Drop for Watch` and
-- `cleanup` hand to close(2), the latest first.
pub record Inotifytools : Type 0 where
  pub fd : ℕ
  pub recursive_watch : ℕ
  pub collect_stats : Bool
  pub error : ℕ
  pub initialized : Bool
  pub verbosity : ℕ
  pub fanotify_mode : Bool
  pub fanotify_mark_type : ℕ
  pub self_pid : ℕ
  pub watches : BTreeMap ℕ Watch
  pub next_id : ℕ
  pub next_fanotify_wd : ℕ
  pub by_wd : BTreeMap ℕ ℕ
  pub by_fid : BTreeMap FidKey ℕ
  pub by_filename : BTreeMap Bytes ℕ
  pub timefmt : Option Bytes
  pub regex : Option Regex
  pub invert_regexp : Bool
  pub totals : WatchStats
  pub closed : List ℕ

-- `Inotifytools::new`
unfoldable pub new : Inotifytools
new = record {
  fd = minus_one;
  recursive_watch = 0;
  collect_stats = false;
  error = 0;
  initialized = false;
  verbosity = 0;
  fanotify_mode = false;
  fanotify_mark_type = 0;
  self_pid = 0;
  watches = [];
  next_id = 1;
  next_fanotify_wd = 0;
  by_wd = [];
  by_fid = [];
  by_filename = [];
  timefmt = none;
  regex = none;
  invert_regexp = false;
  totals = no_events;
  closed = [];
}

-- `struct EventPath`
pub record EventPath : Type 0 where
  pub filename : Bytes
  pub dirnamelen : ℕ
  pub eventname : Bytes

-- What a function that may index `watches` by a missing id returns: `none` is the panic.
infixl 5 ◌>>=◌
abbrev pub ◌>>=◌ {ℓ κ} : {A : Type ℓ} {B : Type κ} → Option A → (A → Option B) → Option B
none >>= f = none
some a >>= f = f a
