-- ===== src/Decision.antt =====
-- src/decision.h and src/decision.cpp: the parts of decision requests that do not stand on the JSON
-- library.
pub mod Types
pub mod Escape
