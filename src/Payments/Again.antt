-- ===== src/Payments/Again.antt =====
-- What a redelivery of a webhook finds, in backend/src/payments/payments.service.ts.
