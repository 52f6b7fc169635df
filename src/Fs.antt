-- ===== src/Fs.antt =====
-- Files: nodes, permissions, capabilities, and the operations on open files.
pub mod Types
pub mod Path
pub mod RamFile
pub mod DirEntry
pub mod Options
pub mod Tree
pub mod Root
pub mod Fops
mod Tests
