-- ===== src/Hk.antt =====
-- internal/hk: the .hk configuration format.
pub mod OrderedMap
pub mod Errors
pub mod Value
pub mod Path
pub mod LexValue
pub mod Literal
pub mod Store
pub mod Config
pub mod Insert
pub mod Parser
pub mod Serialize
pub mod Interpolate
pub mod Load
pub mod Builder
