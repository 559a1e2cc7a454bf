-- ===== src/Tar.antt =====
-- hc/tools/tar/common.c: how tar orders names, keeps the prefix of a directory
-- and fills in a record. Reading of
-- directories and writing of the output are system calls of the platform files.
pub mod Names
pub mod Prefix
pub mod Record
mod Tests
