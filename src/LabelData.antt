-- ===== src/LabelData.antt =====
-- The package hublabeldata: what the preprocessing leaves for the router.
pub mod HublEdges
pub mod HublNodes
