-- ===== src/Cli.antt =====
-- exfiltrate_cli/src: the command line tool, from its arguments to what it prints and writes.
mod Tests
pub mod Descriptions
pub mod Session
pub mod Topics
pub mod Local
pub mod Saving
pub mod Dispatch
pub mod Call
pub mod Beside
pub mod Samples
pub mod Remote
pub mod Offline
pub mod Files
