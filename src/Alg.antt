-- ===== src/Alg.antt =====
-- board/motion/motion_modified/alg.c: the detection of changes in a video stream.
pub mod Despeckle
pub mod Diff
pub mod Label
pub mod Locate
pub mod Morph
pub mod Reference
pub mod Switch
pub mod Tune
pub mod Smartmask
mod Tests
