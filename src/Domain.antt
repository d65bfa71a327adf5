-- ===== src/Domain.antt =====
-- app/domain: the status enumerations (enums.py) and the provider's port (provider.py).
pub mod Calendar
pub mod Enums
pub mod Provider
