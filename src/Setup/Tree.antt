-- ===== src/Setup/Tree.antt =====
-- A directory tree as `watch_recursively_with_exclude` sees it, and which of its directories are
-- to be watched.
use inotify_tools.Prelude.{
  ℕ, suc, ◌<◌, ◌≡◌, Bytes, Bool, true, false, ◌||◌, none, some, List, [], ◌∷◌, ◌++◌, if◌then◌else◌,
  leb, eqb, is_some,
}
use inotify_tools.Prelude.Ord.{bytes_ord}
use inotify_tools.Prelude.Word.{i32_min}
use inotify_tools.Prelude.Buffer.{NoNul}
use inotify_tools.BTreeMap.{get}
use inotify_tools.Handle.{Inotifytools}
use inotify_tools.Kernel.{Kernel}
use inotify_tools.Paths.{slash, dot, is_excluded}
use inotify_tools.Setup.{tolerated}

-- `locked` is a directory that cannot be opened, with the error; `dots` is a "." or "..".
mutual
  pub data Tree : Type 0 where
    file : Tree
    dir : Entries → Tree
    locked : ℕ → Tree

  pub data Entries : Type 0 where
    end : Entries
    dots : Bytes → Entries → Entries
    entry : Bytes → Tree → Entries → Entries

abbrev pub is_dir : Tree → Bool
is_dir file = false
is_dir (dir es) = true
is_dir (locked e) = true

abbrev pub names : Entries → List Bytes
names end = []
names (dots name es) = name ∷ names es
names (entry name t es) = name ∷ names es

abbrev pub max : ℕ → ℕ → ℕ
max a b = if leb a b then b else a

-- how deep a tree is, a directory that cannot be opened included
unfoldable mutual
  pub depth : Tree → ℕ
  depth file = 0
  depth (dir es) = suc (depth_entries es)
  depth (locked e) = 1

  pub depth_entries : Entries → ℕ
  depth_entries end = 0
  depth_entries (dots name es) = depth_entries es
  depth_entries (entry name t es) = max (depth t) (depth_entries es)

abbrev pub child : Bytes → Bytes → Bytes
child path name = path ++ (name ++ (slash ∷ []))

-- the directories to watch, below a path that ends in a slash, those inside one before it
unfoldable mutual
  pub watched : List Bytes → Bytes → Tree → List Bytes
  watched excludes path file = []
  watched excludes path (dir es) = watched_entries excludes path es ++ (path ∷ [])
  watched excludes path (locked e) = []

  pub watched_entries : List Bytes → Bytes → Entries → List Bytes
  watched_entries excludes path end = []
  watched_entries excludes path (dots name es) = watched_entries excludes path es
  watched_entries excludes path (entry name t es) =
      (if is_excluded (child path name) excludes then [] else watched excludes (child path name) t)
      ++ watched_entries excludes path es

module _ {W : Type 0} (k : Kernel W) where
  -- What the system answers about a tree at a path that ends in a slash, whatever was asked before.
  abbrev mutual
    pub Shows : Bytes → Tree → Type 0
    Shows path file = Unit
    Shows path (dir es) =
        ((s : W) → (k.opendir path s).0 ≡ some (names es))
        × ((s : W) → (k.lstat path s).0 ≡ some true)
        × ShowsEntries path es
    Shows path (locked e) =
        (tolerated e ≡ true)
        × ((s : W) → ((k.opendir path s).0 ≡ none) × (k.errno (k.opendir path s).1 ≡ e))

    pub ShowsEntries : Bytes → Entries → Type 0
    ShowsEntries path end = Unit
    ShowsEntries path (dots name es) =
        ((eqb name (dot ∷ []) || eqb name (dot ∷ dot ∷ [])) ≡ true) × ShowsEntries path es
    ShowsEntries path (entry name t es) =
        ((eqb name (dot ∷ []) || eqb name (dot ∷ dot ∷ [])) ≡ false)
        × NoNul name
        × ((s : W) → (k.lstat (path ++ name) s).0 ≡ some (is_dir t))
        × Shows (child path name) t
        × ShowsEntries path es

-- The kernel's watches, as a list of the requests so far: a request always succeeds, with a
-- positive descriptor, and looking at directories leaves the list.
pub record Accepts {W : Type 0} (k : Kernel W) (log : W → List (Bytes × ℕ)) : Type 0 where
  pub adds :
      (fd : ℕ) (path : Bytes) (events : ℕ) (s : W)
      → log (k.inotify_add_watch fd path events s).1 ≡ log s ++ ((path, events) ∷ [])
  pub positive :
      (fd : ℕ) (path : Bytes) (events : ℕ) (s : W)
      → (0 < (k.inotify_add_watch fd path events s).0)
        × ((k.inotify_add_watch fd path events s).0 < i32_min)
  pub opens : (path : Bytes) (s : W) → log (k.opendir path s).1 ≡ log s
  pub looks : (path : Bytes) (s : W) → log (k.lstat path s).1 ≡ log s

-- whether a watch has the name
unfoldable pub known : Inotifytools → Bytes → Bool
known l name = is_some (get name l.by_filename)
