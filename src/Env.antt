-- ===== src/Env.antt =====
-- crates/core/src/env: what is injected into a container's configuration before it is created.
pub mod Gui
pub mod Host
