-- ===== src/Ociimage.antt =====
-- internal/ociimage: images are pulled from a registry and pushed to one.
pub mod Pull
pub mod Push
pub mod Confined
pub mod Packed
pub mod Disk
pub mod Unpacked
pub mod Mirrored
pub mod Modes
pub mod Layer
