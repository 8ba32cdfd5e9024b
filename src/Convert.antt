-- ===== src/Convert.antt =====
-- src/convert.cpp: from the path of the command line to a GGUF file, by conversion if need be.
pub mod Path
pub mod Shell
pub mod Cache
pub mod Resolve
