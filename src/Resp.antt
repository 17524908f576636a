-- ===== src/Resp.antt =====
-- resp: the results of commands, the parser of requests and the printer of replies
pub mod Result
pub mod Parser
pub mod Digits
pub mod Requests
pub mod Arguments
pub mod Resuming
pub mod Splits
pub mod Replier
pub mod Replies
