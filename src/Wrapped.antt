-- ===== src/Wrapped.antt =====
-- src/AbstractDomain/common/BitpreciseWrappedAbstractValue.hpp and .cpp: an abstract value that
-- records which of its dimensions are wrapped to machine integers, and with which sign. `Copy` is
-- a deep copy, so it is the value itself here.
pub mod Domain
pub mod Meaning
pub mod Record
pub mod Bounding
pub mod Lattice
pub mod WrapExact
pub mod Agree
pub mod Update
pub mod Maps
pub mod Invariant
pub mod Operations
pub mod Listed
mod Examples
