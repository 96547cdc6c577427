-- ===== src/Podman.antt =====
-- crates/core/src/podman/mod.rs: the rebuild of a container, the mounts of a new container and the names
-- of images.
pub mod Rebuild
pub mod Mounts
pub mod Images
pub mod Body
pub mod Create
mod Tests
