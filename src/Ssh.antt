-- ===== src/Ssh.antt =====
-- The package ssh (v2/simulator/ssh): an SFTP client that writes random data.
pub mod Auth
pub mod Connect
pub mod Fxp
pub mod Result
pub mod Packet
pub mod Client
pub mod Transfer
pub mod Scope
