-- ===== src/Storage/Timeline/Laws.antt =====
-- The page of a raw query: its length, its order, and what it says of further rows.
