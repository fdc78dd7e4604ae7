-- ===== src/Examples/Demo.antt =====
-- The demonstration programs of examples/: what they print (Printer, Page), their options, how they
-- start an agent (Launch, Asking, Request), and their tools.
pub mod Printer
pub mod Page
pub mod Options
pub mod Launch
pub mod Asking
pub mod Request
pub mod Tools
pub mod Responses
pub mod Queue
pub mod Stored
