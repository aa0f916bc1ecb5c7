-- ===== src/Crypto.antt =====
-- The cryptography of common/cpp/crypto: authenticated packets, message codes and session keys. The
-- ciphers of OpenSSL are arguments.
pub mod AesGcm
pub mod Hmac
pub mod Session
mod Tests
