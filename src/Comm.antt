-- ===== src/Comm.antt =====
-- src/etha/comm: the mesh-to-mesh map, the chunks and buckets made from it, and their transfer.
pub mod Slices
pub mod Trace
pub mod Ir
pub mod Layout
pub mod Routes
pub mod Groups
pub mod Chunks
pub mod Buckets
pub mod Pipeline
