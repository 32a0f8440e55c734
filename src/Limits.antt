-- ===== src/Limits.antt =====
-- libinotifytools/src/inotify.rs, "Kernel limits": numbers that are read from files below /proc.
use inotify_tools.Prelude.{ℕ, Bytes, Bool, Option, none, some, if◌then◌else◌, unwrap_or, not}
use inotify_tools.Prelude.Word.{minus_one}
use inotify_tools.Prelude.Buffer.{codes}
use inotify_tools.Handle.{Inotifytools}
use inotify_tools.Kernel.{Kernel}

abbrev pub watches_size_path : Bytes
watches_size_path = codes "/proc/sys/fs/inotify/max_user_watches"

abbrev pub queue_size_path : Bytes
queue_size_path = codes "/proc/sys/fs/inotify/max_queued_watches"

abbrev pub instances_path : Bytes
instances_path = codes "/proc/sys/fs/inotify/max_user_instances"

-- The calls of stdio that the limits are read by: fopen(3), whether it succeeds; fscanf(3) with
-- "%d", which leaves the number as it is (none is EOF); and fclose(3), which succeeds.
pub record Files (W : Type 0) : Type 0 where
  pub fopen : Bytes → W → Bool × W
  pub fscanf : ℕ → W → Option ℕ × W
  pub fclose : W → W

module _ {W : Type 0} (k : Kernel W) (files : Files W) where
  unfoldable pub read_num_from_file : Inotifytools → Bytes → W → Option ℕ × Inotifytools × W
  read_num_from_file l path s =
      let (opened, s1) = files.fopen path s in
      let (num, s2) = files.fscanf 0 s1 in
      if not opened then (none, record l { error = k.errno s1 }, s1) else elim num [
        | none ↦ (none, record l { error = k.errno s2 }, files.fclose s2)
        | some n ↦ (some n, l, files.fclose s2)
      ]

  unfoldable pub get_max_queued_events : Inotifytools → W → ℕ × Inotifytools × W
  unfolding read_num_from_file
  get_max_queued_events l s =
      let (num, l', s') = read_num_from_file l queue_size_path s in
      (unwrap_or num minus_one, l', s')

  unfoldable pub get_max_user_instances : Inotifytools → W → ℕ × Inotifytools × W
  unfolding read_num_from_file
  get_max_user_instances l s =
      let (num, l', s') = read_num_from_file l instances_path s in (unwrap_or num minus_one, l', s')

  unfoldable pub get_max_user_watches : Inotifytools → W → ℕ × Inotifytools × W
  unfolding read_num_from_file
  get_max_user_watches l s =
      let (num, l', s') = read_num_from_file l watches_size_path s in
      (unwrap_or num minus_one, l', s')
