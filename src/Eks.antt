-- ===== src/Eks.antt =====
-- scripts/eks-init.py: the interactive set-up of a cluster.
pub mod World
pub mod Cluster
pub mod Script
