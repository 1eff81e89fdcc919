-- ===== src/Web.antt =====
-- The web control's texts (board/motion/motion_modified/webhttpd.c): values of requests are decoded
-- in place, and help texts are rewritten.
pub mod Decode
pub mod Decoded
pub mod Encoded
pub mod CutOff
pub mod Replace
pub mod Replaced
pub mod Size
mod Tests
