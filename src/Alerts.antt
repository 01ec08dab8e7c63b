-- ===== src/Alerts.antt =====
-- backend/internal/services/alerts: from samples of a check to Telegram messages and incidents.
pub mod Types
pub mod Policy
pub mod Fingerprint
pub mod Render
pub mod Messages
pub mod Store
pub mod Mute
pub mod Engine
pub mod Dedup
pub mod Samples
pub mod Callback
pub mod Handle
mod Tests
