-- ===== src/Main.antt =====
-- main.cpp: the parts of the main program that decide something. The command line, the log lines and
-- the threads are not modelled.
pub mod Snapshot
pub mod Release
pub mod Startup
mod Tests
