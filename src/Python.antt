-- ===== src/Python.antt =====
-- What the scripts take from Python: numbers, JSON values, and texts cut into parts.
pub mod Number
pub mod Json
pub mod Split
pub mod Digits
