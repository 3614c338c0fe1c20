-- ===== src/Tests.antt =====
-- Concrete runs of the modelled code, and the theorems at concrete inputs.
mod Samples
mod Codecs
mod Stores
mod Logs
mod Servers
mod Meshes
mod Databases
mod Batches
mod Replicas
