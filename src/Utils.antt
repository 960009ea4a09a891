-- ===== src/Utils.antt =====
-- v2/utils: encodings, the split of a transfer, addresses, and random strings.
pub mod Marshal
pub mod Conn
pub mod Net
pub mod Rand
