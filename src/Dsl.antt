-- ===== src/Dsl.antt =====
-- The workflow language of sdk/python/src/helixgrid/dsl.py: its lexer, its parser and what is
-- computed on the graph of a parsed workflow.
pub mod Types
pub mod Literals
pub mod Lexer
pub mod Durations
pub mod Shell
pub mod Cursor
pub mod Fields
pub mod Parser
pub mod Graph
pub mod Validate
pub mod Format
mod Samples
mod Examples
