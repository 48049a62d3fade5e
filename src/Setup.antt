-- ===== src/Setup.antt =====
-- The instructions that set the program up and configure it.
pub mod Settings
pub mod Genesis
pub mod Vaults
pub mod Valid
pub mod Purchase
