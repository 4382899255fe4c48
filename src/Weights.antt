-- ===== src/Weights.antt =====
-- The weight tensors of a weight server: src/weight-server/weighttensor.hpp and weighttensor.cpp.
pub mod Float
pub mod Heap
pub mod Versions
pub mod Adam
pub mod Arrays
pub mod Tidy
pub mod Tensor
