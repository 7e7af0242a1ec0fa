-- ===== src/Fsys.antt =====
-- src/fsys: files, symbolic links and directories, and the disk that `os` gives access to.
pub mod Disk
pub mod Tree
pub mod Scan
