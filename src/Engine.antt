-- ===== src/Engine.antt =====
-- src/engine.h and src/engine.cpp: the generation engine. One file models one part of the class
-- `onyx_engine`; the proofs about a part stand in the modules below it.
pub mod Types
pub mod Llama
pub mod Holdback
pub mod Emit
pub mod Shift
pub mod Sample
pub mod Batch
pub mod Decode
pub mod Queue
pub mod Admit
pub mod Loop
pub mod Decision
pub mod Load
pub mod Run
