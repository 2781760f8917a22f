-- ===== src/Controllers.antt =====
-- The controllers: their options, what they watch, and how they are added to a manager.
pub mod Resource
pub mod Secret
pub mod Health
pub mod Watches
pub mod Identity
pub mod Adding
pub mod Handover
