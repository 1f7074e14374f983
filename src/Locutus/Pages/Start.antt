-- ===== src/Locutus/Pages/Start.antt =====
-- The first allocation after `VMMInit`.
