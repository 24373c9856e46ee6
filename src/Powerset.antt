-- ===== src/Powerset.antt =====
-- src/AbstractDomain/PointsetPowerset: the abstract domain over the Parma Polyhedra Library.
pub mod Ppl
pub mod WrapAssign
pub mod WrapPieces
pub mod WrapSound
pub mod WrapOne
pub mod WrapLoss
pub mod Interval
pub mod IntervalMerge
mod MergeExamples
mod DimensionsExamples
mod Examples
pub mod Distance
pub mod Merge
pub mod MergeCells
pub mod MergeSound
pub mod Indices
pub mod Dimensions
pub mod DimensionsSound
pub mod Wrapping
pub mod JoinSound
mod Meeting
pub mod Constant
mod ConstantExamples
