-- ===== src/Routing/Trie/Finding.antt =====
-- FindPath and FindRoute of common/http/src/RouteTrie.cpp against the resolution that they mean:
-- a static child first, else the parameter child of the highest priority that takes the segment.
pub mod Best
pub mod Ways
pub mod Routes
pub mod Typed
