-- ===== src/OpenSles.antt =====
-- The streams over OpenSL ES: src/opensles. What the OpenSL ES library does is a parameter.
pub mod Engine
pub mod Stream
