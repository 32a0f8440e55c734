-- ===== src/Lib.antt =====
-- The file watching library of inotify-tools (libinotifytools, in Rust) and its two command line
-- tools, inotifywait and inotifywatch.
--
-- The library keeps a handle, `Inotifytools`, with the watches that are registered and three
-- indexes of them, by descriptor, by fanotify file identifier and by file name. Watches come from
-- `create_watch`, which the set-up of a path calls, and leave by removal or `cleanup`; their names
-- follow moves through `replace_filename`. The events that are read pass the filter, count up the
-- counters of their watch and the totals, get their names from the registry, and are printed by
-- `snprintf` or as CSV. The tools parse the command line, build the list of paths, install the
-- filters and set up the watches by `watch_list`; `MoveTracker` follows the events on directories
-- and changes the watches. The C interface makes one handle for the process and passes pointers on
-- to the same functions.
--
-- libinotifytools/src/inotify.rs:
--   Handle       `Inotifytools`, `Watch`, `EventPath`, `new`
--   Registry     the lookups, `create_watch`, `destroy_watch`, `rename_watch`, `set_filename_by_wd`,
--                `set_filename_by_filename`, `replace_filename`, `get_num_watches`
--   Removal      `init`, `cleanup`, `remove_inotify_watch`, `remove_watch_by_wd`,
--                `remove_watch_by_filename`; Kernel holds the system calls
--   Setup        `watch_files`, `fanotify_encode_fid`, `watch_recursively_with_exclude`, `isdir`;
--                Setup/Tree has the directory trees that a recursive watch is stated about
--   Names        `filename_from_fid`, `filename_from_wd`, `filename_from_event`,
--                `dirpath_from_event`, `Event`
--   Reader       the event buffer, with Reader/Convert for `convert_fanotify_event` and
--                Reader/Next for `next_events_raw`; Reader/Wire has the kernel's encoding
--   Session      sequences of the calls above with those of Counters, without the recursive
--                set-up and the reading; Session/Descriptors counts, for a descriptor, the
--                watches that hold it and the times it was closed
--   Printing     `NString`, `fprintf_to`, with `write_to` of libinotifytools/src/cio.rs and
--                `validate_format` and `output_event` of src/inotifywait.rs
--   Limits       `read_num_from_file` and the three limits of the kernel
--   Stats, Counters  `WatchStats`, `record_stats`, `initialize_stats`, the queries and
--                `watches_sorted_by_event`
--   Events       `event_to_str_sep`, `str_to_event_sep` and their variants
--   Format       `snprintf`, `sprintf`, `strncpy`
--   Filters      `do_ignore_events_by_regex`, with `Filters`, `is_timeout_option_valid` and
--                `parse_event` of src/common.rs
--   Paths        `is_excluded`, with `basename`, `FileList` and `construct_path_list` of
--                src/common.rs
-- libinotifytools/src/ffi.rs: Api for the pointers and the handle of the process, Api/Registry,
-- Api/Watching and Api/Output for the functions; Api/Calls has sequences of calls of them.
-- src/common.rs: Program for `warn_inotify_init_error`, Tracker for `watch_list` and `MoveTracker`, with the parts named above.
-- libinotifytools/src/fid.rs: Fid. libinotifytools/src/consts.rs: Consts.
-- src/inotifywait.rs: Csv for `csv_escape_len` and `output_event_csv`, Options/Wait for
-- `parse_opts`, Program/Wait for `real_main` and Monitor for its loop. src/inotifywatch.rs:
-- Options/Watch for `sort_key` and `parse_opts`, Report for `print_info` (Report/Layout
-- describes the table apart from the code), Program/Watch for
-- `real_main` and Monitor for its loop.
-- Prelude has the lists, words and buffers that these share, BTreeMap the standard library's map
-- as an association list, Tests the theorems at concrete inputs.
--
-- An `i32` is its 32-bit pattern, so a negative number is one from 2^31 on, and a cast to `u32` is
-- the identity; additions wrap at 2^32 as in a release build. A `CString` is its bytes up to the
-- first NUL. File identifiers are read as on a little-endian machine. A function that may index the
-- watches, or a buffer, out of range returns an option, and none is the panic. The handle's
-- `closed` is no field of the source: it lists the descriptors that were handed to close(2).
-- Assertions (`niceassert`) and the diagnostics of the library are left out; the messages of
-- `real_main`, of `watch_list` and of `MoveTracker` are listed. A pointer of the C interface is the
-- memory that it leads to, none for NULL, and the text that a returned pointer leads to is given
-- in its place.
--
-- `next_free` runs on as many rounds as there are descriptors and one more, the loop of
-- `str_to_event_sep` on the length of the text, and the loop of `snprintf` on that of the format,
-- each round of which takes one byte at least. `watch_recursively_with_exclude` needs one more than
-- the depth of the tree. `next_events` needs a round for each event that it skips and one more, and
-- in each of them a round for each time that the kernel has too few bytes; where the theorem has
-- neither, two suffice.
--
-- The kernel, regcomp(3), regexec(3), strtol(3), strftime(3), strerror(3) and getopt_long(3) are
-- parameters, as are the calls of stdio, realpath(3), daemon(3), open(2) and dup2(2). The loop of
-- inotifywait runs on fuel for its rounds: one for each event and one for the wait that ends it;
-- that of inotifywatch over the signals that its rounds find. Not modelled: the signal handlers and
-- the alarm of inotifywatch, the system log, the usage texts, and `GetOpt`, which wraps
-- getopt_long(3). The loop of inotifywait lists the events that `output_event` is called with;
-- Printing says what it prints for them. The sequences of calls in Session and Api/Calls have
-- neither the recursive set-up nor the reading of events, which need fuel.
pub mod Prelude
pub mod BTreeMap
pub mod Consts
pub mod Stats
pub mod Fid
pub mod Handle
pub mod Registry
pub mod Kernel
pub mod Removal
pub mod Counters
pub mod Session
pub mod Events
pub mod Csv
pub mod Paths
pub mod Printing
pub mod Filters
pub mod Options
pub mod Format
pub mod Setup
pub mod Tracker
pub mod Reader
pub mod Report
pub mod Monitor
pub mod Names
pub mod Limits
pub mod Api
pub mod Program
mod Tests
