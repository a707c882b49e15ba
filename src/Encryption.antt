-- ===== src/Encryption.antt =====
-- share/encryption: the stream cipher of the packet layer.
pub mod Tables
pub mod Bytes
pub mod Cipher
