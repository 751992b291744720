-- ===== src/Utils.antt =====
pub mod IntStack
pub mod IntArraySet
pub mod OrderedIntSet
pub mod IntArrayList
pub mod DistanceHeap
