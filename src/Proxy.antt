-- ===== src/Proxy.antt =====
-- internal/proxy/handler.go: the request handler.
pub mod Headers
pub mod Attempts
pub mod Accounting
pub mod Answers
pub mod Observed
pub mod Outcomes
pub mod Forwarding
mod Examples
