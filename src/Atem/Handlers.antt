-- ===== src/Atem/Handlers.antt =====
-- The cases of the `switch` in `Atem::task_`, a function for each. A handler gets the sequence, the
-- packet's block, the command's offset and the switcher, and returns the bits that it sets in
-- `event` and the new switcher.
pub mod Device
pub mod Media
pub mod Keyers
pub mod Complete
pub mod MixEffects
