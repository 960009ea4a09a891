-- ===== src/Cmd.antt =====
-- The commands of the program (v2/cmd).
pub mod Command
pub mod Program
pub mod Output
pub mod Get
pub mod Modules
pub mod Select
pub mod Run
pub mod Table
