-- ===== src/Routes.antt =====
-- Handlers of apps/web/app/api/v1 that combine the guards with what they protect.
pub mod StudioPatch
pub mod Login
mod Tests
