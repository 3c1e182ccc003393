-- ===== src/Model.antt =====
-- The model of miniserve/model.py: its arithmetic, its passes through the paged cache, and what they
-- compute.
pub mod Torch
pub mod Weights
pub mod Loading
pub mod Forward
pub mod Reference
pub mod Slots
pub mod Scatter
pub mod Masking
pub mod Pass
pub mod Layers
pub mod Blocks
pub mod Texts
pub mod Request
pub mod Batched
pub mod Resume
