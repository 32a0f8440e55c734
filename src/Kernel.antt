-- ===== src/Kernel.antt =====
-- What the library asks of the system: a value of `W` is the state of everything outside the
-- process, and each call answers and changes it. A descriptor or status is an `i32` pattern; a
-- failed call is a negative one or `none`, and `errno` is what the last call left.
use inotify_tools.Prelude.{ℕ, Bytes, Option, Bool, List}

pub record Kernel (W : Type 0) : Type 0 where
  pub errno : W → ℕ
  pub getpid : W → ℕ
  pub inotify_init : W → ℕ × W
  pub fanotify_init : ℕ → W → ℕ × W
  pub inotify_add_watch : ℕ → Bytes → ℕ → W → ℕ × W
  pub inotify_rm_watch : ℕ → ℕ → W → ℕ × W
  pub fanotify_mark : ℕ → ℕ → ℕ → Bytes → W → ℕ × W
  -- whether the path is a directory, links not followed; `none` if lstat(2) fails
  pub lstat : Bytes → W → Option Bool × W
  -- the eight bytes of `f_fsid`
  pub statfs : Bytes → W → Option Bytes × W
  pub open_readonly : Bytes → W → ℕ × W
  pub open_path : Bytes → W → ℕ × W
  -- the `struct file_handle`: 4 bytes of size, 4 of type, and the handle
  pub name_to_handle_at : Bytes → W → Option Bytes × W
  -- the names that readdir(3) returns on the stream; `none` if opendir(3) fails
  pub opendir : Bytes → W → Option (List Bytes) × W
  -- the handle is the `struct file_handle`
  pub open_by_handle_at : ℕ → Bytes → W → ℕ × W
  pub dup : ℕ → W → ℕ × W
  pub close : ℕ → W → W
  -- what the link of the descriptor under /proc/self/fd leads to, cut at the given length
  pub readlink : ℕ → ℕ → W → Option Bytes × W
  -- faccessat(2) of a name in a directory, links not followed
  pub faccessat : ℕ → Bytes → W → ℕ × W
  -- ppoll(2) for input, with the timeout in seconds (a negative one: none)
  pub ppoll : ℕ → ℕ → W → ℕ × W
  -- the number of bytes that can be read
  pub fionread : ℕ → W → Option ℕ × W
  pub read : ℕ → ℕ → W → Option Bytes × W
