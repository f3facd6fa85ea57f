-- ===== src/Tests.antt =====
-- Concrete runs, and the theorems of the library at concrete inputs.
mod Queue
mod Completions
mod Documents
mod Rules
mod Kingdee
mod Workers
mod Drafting
