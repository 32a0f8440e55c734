-- ===== src/Options.antt =====
-- The command lines of the two tools, as getopt_long(3) takes them apart.
pub mod Getopt
pub mod Wait
pub mod Watch
