-- ===== src/Programs.antt =====
-- The programs tentris-loader and tentris-server (execs): their command lines, the data stores that they
-- open, and what one leaves for the other.
pub mod Options
pub mod Metall
pub mod Loader
pub mod Server
pub mod Stores
pub mod Loaded
pub mod Served
pub mod Handover
pub mod Disk
mod Examples
