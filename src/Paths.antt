-- ===== src/Paths.antt =====
-- src/common.rs and libinotifytools/src/inotify.rs: `basename`, `invoked_as_fsnotify`, the lists
-- of files to watch and to exclude, and `is_excluded`.
pub mod Basename
use inotify_tools.Prelude.{
  ℕ, zero, suc, ◌+◌, ◌-◌, Bytes, Bool, true, false, ◌&&◌, ◌||◌, Option, none, some, List, [], ◌∷◌,
  ◌++◌, ◌==◌, ltb, if◌then◌else◌, length, take, drop, get_or, eqb, starts_with, is_empty, until_nul,
}
use inotify_tools.Prelude.Buffer.{codes}

abbrev pub slash : ℕ
slash = b'/'

abbrev pub dot : ℕ
dot = b'.'

-- the loop of `basename` that cuts slashes at the end, down to one byte
unfoldable pub trim_end : ℕ → Bytes → ℕ
trim_end zero path = zero
trim_end (suc e) path =
    let rest = trim_end e path in if ltb 0 e && get_or path e 0 == slash then rest else suc e

-- `iter().rposition(|&c| c == b'/')`
unfoldable pub rposition : ℕ → Bytes → Option ℕ
rposition c [] = none
rposition c (x ∷ xs) = elim (rposition c xs) [
  | some i ↦ some (suc i)
  | none ↦ if x == c then some 0 else none
]

-- what stands behind the last slash
unfoldable pub after_slash : Bytes → Bytes
unfolding rposition
after_slash trimmed = elim (rposition slash trimmed) [
  | some i ↦ drop (suc i) trimmed
  | none ↦ trimmed
]

unfoldable pub basename : Bytes → Bytes
unfolding trim_end after_slash
basename path =
    let trimmed = take (trim_end (length path) path) path in
    if is_empty path
    then dot ∷ []
    else if eqb trimmed (slash ∷ [])
    then slash ∷ []
    else after_slash trimmed

unfoldable pub invoked_as_fsnotify : Option Bytes → Bool
unfolding basename
invoked_as_fsnotify none = false
invoked_as_fsnotify (some a) = starts_with (basename a) (codes "fsnotify")

pub record FileList : Type 0 where
  pub watch_files : List Bytes
  pub exclude_files : List Bytes

abbrev pub no_files : FileList
no_files = record { watch_files = []; exclude_files = [] }

abbrev pub at_sign : ℕ
at_sign = b'@'

-- `Vec::push`
abbrev pub push {ℓ} : {A : Type ℓ} → List A → A → List A
push xs x = xs ++ (x ∷ [])

-- `FileList::add`
unfoldable pub add : FileList → Bytes → FileList
add l [] = l
add l (c ∷ rest) =
    if c == at_sign
    then if is_empty rest then l else record l { exclude_files = push l.exclude_files rest }
    else record l { watch_files = push l.watch_files (c ∷ rest) }

-- `name.truncate(len - 1)` if the last byte is a newline
unfoldable pub chomp : Bytes → Bytes
chomp name = if get_or name (length name - 1) 0 == 10 then take (length name - 1) name else name

-- one round of the loop of `construct_path_list`; `chunk` is what fgets(3) left in the buffer
unfoldable pub add_line : FileList → Bytes → FileList
unfolding chomp
add_line l chunk =
    let line = until_nul chunk in
    let name = chomp line in
    if is_empty line
    then l
    else if length line == 1 && get_or name 0 0 == at_sign
    then l
    else elim name [
      | [] ↦ record l { watch_files = push l.watch_files [] }
      | c ∷ rest ↦
          if c == at_sign
          then record l { exclude_files = push l.exclude_files rest }
          else record l { watch_files = push l.watch_files (c ∷ rest) }
    ]

unfoldable pub add_lines : FileList → List Bytes → FileList
unfolding add_line
add_lines l [] = l
add_lines l (chunk ∷ chunks) = add_lines (add_line l chunk) chunks

unfoldable pub add_args : FileList → List Bytes → FileList
unfolding add
add_args l [] = l
add_args l (a ∷ args) = add_args (add l a) args

-- `construct_path_list`: `fromfile` is none if the option was not given, `some none` if the file
-- could not be opened, and else what fgets(3) reads from it
unfoldable pub construct_path_list : List Bytes → Option (Option (List Bytes)) → Option FileList
unfolding add_lines add_args
construct_path_list args none = some (add_args no_files args)
construct_path_list args (some none) = none
construct_path_list args (some (some chunks)) = some (add_args (add_lines no_files chunks) args)

-- the length of an excluded name without a slash at its end
unfoldable pub stem : Bytes → ℕ
stem ex =
    if ltb 0 (length ex) && get_or ex (length ex - 1) 0 == slash then length ex - 1 else length ex

unfoldable pub is_excluded : Bytes → List Bytes → Bool
unfolding stem
is_excluded next_file [] = false
is_excluded next_file (ex ∷ exs) =
    (length next_file == stem ex + 1 && eqb (take (stem ex) ex) (take (stem ex) next_file))
    || is_excluded next_file exs
