-- ===== src/Config.antt =====
-- src/config.rs: the checks that turn the sections of a configuration file into settings. Texts and
-- paths are their bytes, and durations of the settings are nanoseconds where no comment says
-- otherwise.
pub mod Jobs
pub mod Storage
pub mod Listeners
pub mod Peers
pub mod Startup
