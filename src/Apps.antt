-- ===== src/Apps.antt =====
-- The programs in example/ that use the component.
pub mod Boot
pub mod PreviewSwitcher
pub mod PreviewTurn
pub mod Console
pub mod Wifi
pub mod WifiBits
