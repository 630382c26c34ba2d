-- ===== src/Tools.antt =====
-- burnin/cmd: the command line tools that check a server and clean up after runs.
pub mod Verify
pub mod Cleanup
mod Tests
