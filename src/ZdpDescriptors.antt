-- ===== src/ZdpDescriptors.antt =====
-- zdp_descriptors.cpp: the descriptors of a node, with their readers and writers.
pub mod Node
pub mod Simple
mod Tests
