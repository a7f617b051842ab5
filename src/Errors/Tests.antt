-- ===== src/Errors/Tests.antt =====
-- The error handler at a concrete request.
