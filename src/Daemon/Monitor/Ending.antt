-- ===== src/Daemon/Monitor/Ending.antt =====
-- x
