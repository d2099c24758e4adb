-- ===== src/Core.antt =====
-- packages/core: the commission rules that the server, the worker and the database layer share.
pub mod Number
pub mod Tiers
pub mod Engine
pub mod Explanation
pub mod Lifecycle
