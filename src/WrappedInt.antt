-- ===== src/WrappedInt.antt =====
-- src/reinterp/wrapped_domain/WrappedDomain_Int.hpp and .cpp: an integer of the analysed program,
-- as an abstract value of the program's variables and of one more dimension, which stands for the
-- integer.
pub mod Setting
pub mod Record
pub mod Linear
pub mod Divide
pub mod Bits
pub mod Compare
pub mod Meaning
pub mod Keep
pub mod Sound
pub mod Set
pub mod Transform
pub mod Combine
pub mod Arithmetic
pub mod Sums
pub mod Products
pub mod Ordered
pub mod Comparisons
pub mod Differ
pub mod Quotient
pub mod Wrapping
pub mod Sizes
pub mod Masks
pub mod Conjunction
mod Examples
pub mod Images
