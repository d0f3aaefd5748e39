-- ===== src/Keystore.antt =====
-- keystore: secret keys in files, each encrypted under a password.
pub mod Passphrase
pub mod Files
pub mod Store
pub mod Vault
