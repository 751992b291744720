-- ===== src/Tests.antt =====
-- Runs of the modelled code on small inputs, and each result at an input.
mod Containers
mod World
mod Labels
mod Browser
mod Heap
mod Page
mod Grid
mod Routes
mod HlDijkstra
mod LabelInfo
mod LabelCreator
