-- ===== src/Shell.antt =====
-- CS230_projects/shelllab/tsh.c.
pub mod Jobs
pub mod Signals
pub mod Control
pub mod Parse
pub mod Eval
mod Tests
