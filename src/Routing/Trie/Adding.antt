-- ===== src/Routing/Trie/Adding.antt =====
-- AddPath of common/http/src/RouteTrie.cpp: it keeps the trie well formed, and it changes the table
-- at the added route only.
pub mod Shape
pub mod Steps
pub mod Walk
pub mod Effect
