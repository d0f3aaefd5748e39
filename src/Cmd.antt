-- ===== src/Cmd.antt =====
-- computing/app/http/cmd: the commands of the program.
pub mod Wallet
pub mod Sign
pub mod Daemon
pub mod Version
pub mod Rpc
