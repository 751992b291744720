-- ===== src/Creation.antt =====
-- The package hublablecreation: the data that the preprocessing works on.
pub mod Edges
pub mod Labels
pub mod Nodes
pub mod DynamicGrid
pub mod HlDijkstra
pub mod LabelCreator
