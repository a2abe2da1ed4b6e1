-- ===== src/Agdcslog.antt =====
-- Package internal/agdcslog: records of the log for the log of the operating system. The children
-- have the slices of attributes, the handler, and the logs of the systems.
pub mod Darwin
pub mod Derived
pub mod Handler
pub mod Slices
pub mod Writers
