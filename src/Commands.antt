-- ===== src/Commands.antt =====
-- service/commands: the handlers. A handler takes the service, the arguments with the command's name
-- first, and the result that the client's last reset left; it returns the service and the result.
pub mod Times
pub mod Options
pub mod Reads
pub mod Writes
pub mod ReadLaws
pub mod SetLaws
pub mod WriteLaws
pub mod TimeLaws
pub mod OptionLaws
pub mod RangeLaws
pub mod Validity
pub mod WriteValidity
