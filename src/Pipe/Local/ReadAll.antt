-- ===== src/Pipe/Local/ReadAll.antt =====
-- `read_all` of a local pipe that its writer has closed.
