-- ===== src/Tool.antt =====
-- The tools of an agent: their parameters, their arguments and the registry.
pub mod Param
pub mod Args
pub mod Registry
pub mod Escape
pub mod Builder
pub mod Lookup
