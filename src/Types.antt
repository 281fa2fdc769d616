-- ===== src/Types.antt =====
-- business/types: the parsed values of the domain. A value is made by its package's Parse alone, so
-- its field is what Parse accepted.
pub mod Regex
pub mod Enums
pub mod Name
pub mod Phone
pub mod Password
pub mod Parsing
