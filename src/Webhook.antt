-- ===== src/Webhook.antt =====
-- Webhook events: the envelope, its summary and the event store of
-- src/razortrust/integrations/razorpay.py.
pub mod Summary
pub mod Ingest
pub mod References
pub mod Once
pub mod RestClient
