-- ===== src/Scoped.antt =====
-- The scoped suppression of rules by a project profile: runtime/src/scoped_rule_policy.py.
pub mod Syntax
pub mod Entries
pub mod Scopes
pub mod Matcher
mod Tests
