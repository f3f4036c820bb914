-- ===== src/Examples.antt =====
-- The theorems at concrete inputs, a module for each part of src.
mod MutexRuns
mod Vectors
mod VectorThreads
mod Allocations
mod Backoffs
mod Maps
mod BucketThreads
mod MapThreads
mod Handles
mod Types
