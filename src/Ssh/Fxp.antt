-- ===== src/Ssh/Fxp.antt =====
-- v2/simulator/ssh/fxp/fxp.go: the field parser and the packets of the SFTP protocol.
pub mod Parser
pub mod Reads
pub mod Packets
pub mod RoundTrip
pub mod Sound
