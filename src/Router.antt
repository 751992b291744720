-- ===== src/Router.antt =====
-- The package router.
pub mod BestLabel
pub mod TwoLabels
pub mod General
pub mod TempLabels
pub mod Unpack
