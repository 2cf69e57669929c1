-- ===== src/Routing.antt =====
-- The routing core of common/http: path parameter types, paths, and the route trie.
pub mod ParamType
pub mod Paths
pub mod Segments
pub mod Trie
