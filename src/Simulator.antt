-- ===== src/Simulator.antt =====
-- The package simulator (v2/simulator): the modules that make traffic.
pub mod Cleartext
pub mod Connect
pub mod Dga
pub mod IcmpTunnel
pub mod Irc
pub mod Lookups
pub mod Miner
pub mod Scan
pub mod Spambot
pub mod SshTransfer
pub mod Telegram
pub mod Tor
