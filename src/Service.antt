-- ===== src/Service.antt =====
-- Parts of src/fabri/service.
pub mod RunStore
