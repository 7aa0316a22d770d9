-- ===== src/Core/Tests.antt =====
-- A word of one vocabulary, put to every parser.
