-- ===== src/Icrypto.antt =====
-- src/icrypto: tokens, keys and ciphers. The signatures, the ciphers and the key formats are those of
-- libraries, which are arguments.
pub mod Token
pub mod Period
pub mod Keys
pub mod Export
pub mod Cipher
