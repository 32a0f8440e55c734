-- ===== src/Api/Steps.antt =====
-- What holds of the shared handle between two calls of the C interface, and how a call ends.
use inotify_tools.Prelude.{ℕ, ◌+◌, ◌≤◌, ◌≡◌, Bytes, Bool, Option, some}
use inotify_tools.Prelude.Ord.{nat_ord, bytes_ord}
use inotify_tools.Api.{Global, lib}
use inotify_tools.Api.Calls.{Call, cost, step}
use inotify_tools.Handle.{Inotifytools}
use inotify_tools.Limits.{Files}
use inotify_tools.Kernel.{Kernel}
use inotify_tools.Printing.Laws.{Sized}
use inotify_tools.Registry.Invariant.{Inv}

abbrev pub next : Global → ℕ
next g = (lib g).reader.lib.next_id

-- the handle of a process between two calls
abbrev pub Good : Global → Type 0
Good g = Inv (lib g).reader.lib × Sized (lib g).print_out

abbrev pub Grown : ℕ → Inotifytools → Type 0
Grown m l = Inv l × (l.next_id ≤ m)

module _ {W : Type 0} (k : Kernel W) (files : Files W) (compiles : Bytes → ℕ → Bool)
    (strftime : Bytes → W → Option Bytes) (evstr : Bytes) where
  -- how a call ends
  abbrev pub Steps : Global → W → Call → Type 0
  Steps g s c =
      (g' : Global) × (s' : W) × (step k files compiles strftime evstr g s c ≡ some (g', s'))
      × Good g'
      × (next g' ≤ next g + cost c)
