-- ===== src/Rules.antt =====
-- packages/rule-engine/src: the rules of a row job. What an expression (Expression) and a date format
-- (Dates) make of a value is an argument of row evaluation.
pub mod Dates
pub mod Language
pub mod Transforms
pub mod Expression
pub mod Evaluate
pub mod Valid
