-- ===== src/Validation.antt =====
-- Core/Include/Validation: the result container, the rules, and their combination.
pub mod Outcome
pub mod Rules
