-- ===== src/Pipe/Input/Partial.antt =====
-- A stream that ends within a row.
