-- ===== src/Platform.antt =====
-- platform/: the commands that change and inspect the network.
pub mod Command
pub mod VipManager
pub mod Ownership
pub mod MacAddress
pub mod LinuxRunner
mod Tests
