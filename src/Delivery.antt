-- ===== src/Delivery.antt =====
-- backend/src/delivery: the supplier chain of every item of an order.
pub mod Run
pub mod Limiter
pub mod Client
pub mod Journal
pub mod Chain
pub mod Issue
pub mod Accept
pub mod Moves
pub mod Pass
