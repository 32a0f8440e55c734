-- ===== src/Program.antt =====
-- src/common.rs and src/inotifywait.rs: what the two programs do beside watching, and how the parts
-- of their `real_main` follow each other.
pub mod Wait
pub mod Watch
pub mod Kept
pub mod Batch
use inotify_tools.Prelude.{
  ℕ, Bytes, Bool, true, false, not, ◌&&◌, Option, none, some, List, [], ◌∷◌, ◌++◌, ◌==◌,
  if◌then◌else◌, is_empty, eqb,
}
use inotify_tools.Prelude.Buffer.{codes}
use inotify_tools.Prelude.Word.{is_neg}
use inotify_tools.Filters.{einval}
use inotify_tools.Handle.{Inotifytools, ◌>>=◌}
use inotify_tools.Kernel.{Kernel}
use inotify_tools.Paths.{FileList, construct_path_list}

-- What the programs ask of the system beside the library's calls: realpath(3), none if it fails;
-- daemon(3), whether it succeeds; open(2) with flags and mode; dup2(2); and the chunks that fgets(3)
-- reads from a file (from the standard input, for `-`), none if it cannot be opened.
pub record Host (W : Type 0) : Type 0 where
  pub realpath : Bytes → W → Option Bytes × W
  pub daemon : W → Bool × W
  pub open_file : Bytes → ℕ → ℕ → W → ℕ × W
  pub dup2 : ℕ → ℕ → W → W
  pub read_file : Bytes → W → Option (List Bytes) × W

-- A part of `real_main`: a panic (none), or what it made (none: `real_main` returns EXIT_FAILURE),
-- its messages, and the system.
abbrev pub Stage : Type 0 → Type 0 → Type 0
Stage W A = Option (Option A × List Bytes × W)

-- the next part, if this one did not return
infixl 4 ◌then_next◌
abbrev pub ◌then_next◌ : {W A B : Type 0} → Stage W A → (A → W → Stage W B) → Stage W B
none then_next f = none
some (none, messages, s) then_next f = some (none, messages, s)
some (some a, messages, s) then_next f = f a s >>= λ (b, more, s'). some (b, messages ++ more, s')

abbrev pub emfile : ℕ
emfile = 24

abbrev pub eperm : ℕ
eperm = 1

unfoldable pub warn_inotify_init_error : (ℕ → Bytes) → Inotifytools → Bool → List Bytes
warn_inotify_init_error strerror l fanotify =
    let backend = if fanotify then codes "fanotify" else codes "inotify" in
    let resource = if fanotify then codes "groups" else codes "instances" in
    (codes "Couldn't initialize " ++ (backend ++ (codes ": " ++ (strerror l.error ++ codes "\n"))))
    ∷ ((if l.error == emfile
          then (codes "Try increasing the value of /proc/sys/fs/"
              ++ (backend ++ (codes "/max_user_" ++ (resource ++ codes "\n"))))
            ∷ []
          else [])
        ++ ((if fanotify && l.error == einval
              then codes
                  "fanotify support for reporting the events with file names was added in kernel v5.9.\n"
                ∷ []
              else [])
            ++ (if fanotify && l.error == eperm
                then codes "fanotify watch requires admin privileges\n" ∷ []
                else [])))

module _ {W : Type 0} (k : Kernel W) (host : Host W) (strerror : ℕ → Bytes) where
  -- `construct_path_list` with the file of `--fromfile`, and the test of `real_main` behind it
  unfoldable pub files_of : List Bytes → Option Bytes → W → Stage W FileList
  files_of args fromfile s =
      let (lines, s') : Option (Option (List Bytes)) × W = elim fromfile [
        | none ↦ (none, s)
        | some name ↦ let (chunks, s1) = host.read_file name s in (some chunks, s1)
      ] in
      elim (construct_path_list args lines) [
        | none ↦ some (
          none,
          (codes "Couldn't open "
                ++ ((elim fromfile [ none ↦ [] | some name ↦ name ])
                    ++ (codes ": " ++ (strerror (k.errno s') ++ codes "\n"))))
              ∷ [],
          s',
        )
        | some list ↦
            if is_empty list.watch_files
            then some (none, codes "No files specified to watch!\n" ∷ [], s')
            else some (some list, [], s')
      ]

  -- `redirect` of inotifywait
  unfoldable pub redirect : Bytes → ℕ → ℕ → ℕ → W → Bool × W
  redirect path flags mode target s =
      let (fd, s') = host.open_file path flags mode s in
      if is_neg fd
      then (false, s')
      else if not (fd == target)
      then (true, k.close fd (host.dup2 fd target s'))
      else (true, s')
