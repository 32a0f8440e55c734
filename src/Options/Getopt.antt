-- ===== src/Options/Getopt.antt =====
-- What `GetOpt` of src/common.rs, which only wraps getopt_long(3), hands to `parse_opts`: the
-- options in their order, each with its argument, whether the last call returned `?`, and the
-- arguments that remain.
use inotify_tools.Prelude.{ℕ, Bytes, Bool, Option, List}

pub record GetOpt : Type 0 where
  pub options : List (ℕ × Option Bytes)
  pub bad : Bool
  pub remaining : List Bytes
