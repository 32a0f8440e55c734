-- ===== src/Tests.antt =====
-- Runs of the definitions, and the theorems at concrete inputs.
mod Registry
mod Text
mod Tools
mod Events
mod Paths
mod Loops
mod Program
mod Fanotify
mod Descriptors
