-- ===== src/Config.antt =====
-- config/config.go: how the name of an environment variable is matched to a setting, and what the
-- variables override. Texts are lists of runes and the tables of Go's package unicode an argument.
-- The reflection that finds the fields of the target, the parsers and the decoder are left out.
pub mod Schema
pub mod Overrides
pub mod Names
pub mod Resolved
pub mod Built
pub mod Overlay
