-- ===== src/Sampler.antt =====
-- src/sampler.h and src/sampler.cpp: the grammar triggers of a request.
pub mod Trigger
