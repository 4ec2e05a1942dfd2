-- ===== src/Memory/Scopes.antt =====
-- src/fabri/memory/scopes.py: the collections of users and organizations, and the guard that keeps
-- them apart.
mod Guard
mod Context
mod Owners
mod Isolated
mod Tests
