-- ===== src/Integrity/Damaged.antt =====
-- A compressed backup whose bytes have changed: what its check says and what its restore does.
