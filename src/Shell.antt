-- ===== src/Shell.antt =====
-- hw4: a shell.
pub mod Jobs
pub mod Kill
pub mod Foreground
pub mod Trim
pub mod Redirect
pub mod Naming
pub mod Words
pub mod Color
pub mod Pipeline
pub mod Directory
mod Tests
