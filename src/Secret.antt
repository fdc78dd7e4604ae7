-- ===== src/Secret.antt =====
-- The API key: how it is kept and where it is looked for.
pub mod Base64
pub mod Base64Text
pub mod Obfuscator
pub mod Cipher
pub mod Store
pub mod Resolver
pub mod Kept
pub mod Lookup
