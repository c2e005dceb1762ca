-- ===== src/Intentional/Tests.antt =====
-- The bands at a boundary.
