-- ===== src/Http.antt =====
-- common/http: errors, messages, request contexts, the router and controllers.
pub mod Error
pub mod Verb
pub mod Json
pub mod Message
pub mod Context
pub mod ErrorMapping
pub mod Router
pub mod Controller
