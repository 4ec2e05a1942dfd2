-- ===== src/Pricing.antt =====
-- src/fabri/pricing.py: what the tokens of a model cost.
mod Defs
mod Longest
mod Tests
