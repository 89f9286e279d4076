-- ===== src/Hotel/Drained.antt =====
-- The drain at shutdown, over the sessions of the server.
