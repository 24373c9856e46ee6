-- ===== src/Dimension.antt =====
-- src/AbstractDomain/common/dimension.hpp and dimension.cpp: dimension keys, their versions, and
-- vocabularies, which are sets of keys.
pub mod Key
pub mod Vocabulary
pub mod Versions
mod Examples
