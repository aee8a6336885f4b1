-- ===== src/Stubs.antt =====
-- backend/src/stubs: the suppliers and the payment provider that stand in for the real ones.
pub mod Supplier
pub mod Payment
