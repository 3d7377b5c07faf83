-- ===== src/ApiKeys/Race.antt =====
-- A verification of an API key that stores what it read before the key was deleted.
