-- ===== src/Args.antt =====
-- src/args.h and src/args.cpp: the command line, from `argv` to the checked `onyx_args`.
pub mod Types
pub mod Number
pub mod Values
pub mod Parse
pub mod Check
