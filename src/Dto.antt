-- ===== src/Dto.antt =====
-- common/dto: the conversions of the data types to JSON and back. Reading a value writes its fields
-- one after the other; a value that an exception leaves half written is not kept.
pub mod Fields
pub mod User
pub mod UserProfile
pub mod OrderCreatedEvent
