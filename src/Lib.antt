-- ===== src/Lib.antt =====
-- Verification of the bit-precise abstract domains: machine words, dimensions and vocabularies,
-- the values that record which of their dimensions are wrapped, their products, the weights that
-- a solver combines, the integers of the analysed program, and the wrapping of powersets of point
-- sets.
--
-- A wrapped value, a product and a weight are each built over any abstract domain, which they call
-- through one interface. A wrapped value bounds its dimensions by the integers of the least and
-- largest machine words, and keeps a map from the wrapped dimensions to their signs. A weight
-- composes two steps by moving the versions of the second one on. An integer of the analysis is a
-- wrapped value with one more dimension; its operations rename that dimension to a temporary one,
-- add constraints between the two, and remove the temporary one again.
--
-- Parts and files:
--   Value       utils/gmp/value.hpp, value.cpp: machine words tagged with their width (`Value`),
--               one `Option` per member of the class; every operator is a function into `Result`,
--               whose errors are the failed asserts and the undefined behaviour of C++.
--   Container   what `std::set` and `std::map` do, on sorted lists.
--   Dimension   src/AbstractDomain/common/dimension.hpp, dimension.cpp: `DimensionKey`, versions,
--               `Vocabulary`.
--   Signedness  src/AbstractDomain/common/BitpreciseWrappedAbstractValue.hpp: the static functions
--               on `VocabularySignedness`.
--   Mpz         utils/gmp/gmpxx_utils.cpp: conversions between words and integers. The functions of
--               GMP are the record `Mpz.Gmp`, and `IsGmp` has what its manual says of them;
--               `Mpz.Exact` is an instance.
--   Wrapped     src/AbstractDomain/common/AbstractValue.hpp and AbstractValue.cpp: the interface of
--               a domain, as the record `Domain`; BitpreciseWrappedAbstractValue.hpp and .cpp: the
--               value that records its wrapped dimensions, over any domain. `Wrapped.Listed` is an
--               instance of the interface.
--   Semiring    src/AbstractDomain/common/AvSemiring.hpp, AvSemiring.cpp: the weights that the
--               solver combines, over any domain. `Semiring.Flat` is an instance of the interface
--               with its laws.
--   Product     src/AbstractDomain/common/ReducedProductAbsVal.hpp: the product of two domains, as a
--               function from two `Domain` records to one. `Wrapped.Meaning` states what a sound
--               domain is.
--   WrappedInt  src/reinterp/wrapped_domain/WrappedDomain_Int.hpp and .cpp: the integers that
--               reinterpreted instructions compute with. `Setting` bundles what they stand on;
--               `WrappedInt.Sound` states what is relied on, and `WrappedInt.Conjunction` is a
--               domain that has it. Some results also ask that constraints are exact
--               (`KeepsConstraints`) or that wrapping one dimension has the wrapped image of
--               every step (`WrapsOne`). `Holds` is a step of a wrapped value: one in which every
--               recorded dimension is in the range of its type.
--   Powerset    src/AbstractDomain/PointsetPowerset/pointset_powerset_wrap_assign.h: wrapping of
--               variables without an upper bound operation. The Parma Polyhedra Library is the
--               record `Powerset.Ppl.Ppl` of operations, and `IsSound` states what is relied on;
--               `Powerset.Interval` is an instance. `Indices`, `Dimensions`, `Distance`,
--               `Merge`, `Wrapping` and `Meeting` are parts of pointset_powerset_av_impl.hpp
--               beside it: the map between keys and dimensions, the changes of the vocabulary,
--               the merging of sets, the choice of what to wrap, join and meet. `Constant` is the
--               search for a constant.
--
-- Loops are structural recursion on a list or a count. Two functions recurse on fuel. The recursion
-- of `overapproximates` has no bound in the source: fuel 2 is enough for the calls that return, and
-- `none` stands for a call that needs more. `merge_loop` starts with the number of sets, and each
-- turn takes one away. `Prelude` holds integers, floored division, tests, results and lists.
--
-- Not modelled: printing, timers and statistics; ranks, population counts and multiplicative
-- inverses of words; of src/AbstractDomain/PointsetPowerset widening, constraints and dependent
-- vocabularies, and of its wrapping the collective variant and the variant with a
-- constraint system, which its caller does not use; the walk over LLVM instructions in
-- src/reinterp, which stands on libraries outside the repository, and the analysis driver in
-- src/analysis. In WrappedInt, copies of an integer are values, so they need no definition.
pub mod Prelude
pub mod Value
pub mod Container
pub mod Dimension
pub mod Signedness
pub mod Wrapped
pub mod Semiring
pub mod Mpz
pub mod Product
pub mod WrappedInt
pub mod Powerset
