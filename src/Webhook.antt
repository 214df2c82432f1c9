-- ===== src/Webhook.antt =====
-- The admission webhooks of internal/webhook/v1.
pub mod QuotaMode
pub mod PodGuard
