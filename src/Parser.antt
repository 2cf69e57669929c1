-- ===== src/Parser.antt =====
-- common/parser: text to typed values (include/ValueParser.hpp) and parameter lookup
-- (include/TypedParams.hpp), with the routines of the standard library that they call.
pub mod Integral
pub mod Floating
pub mod Values
pub mod Params
