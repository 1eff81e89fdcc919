-- ===== src/Conf.antt =====
-- The configuration of motion (board/motion/motion_modified/conf.c): its lines, its options, the
-- files that conf_process reads and the text that conf_print writes.
pub mod Line
pub mod Written
pub mod Trim
pub mod Number
pub mod Options
pub mod File
pub mod Print
pub mod Lines
pub mod RoundTrip
pub mod Restored
pub mod Agreement
pub mod Nested
pub mod Printable
mod Tests
