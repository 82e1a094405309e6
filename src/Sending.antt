-- ===== src/Sending.antt =====
-- Outbound mail: domain/entities/sent_email.go and domain/email_sending/usecase.go.
pub mod Entity
pub mod Retry
pub mod UseCase
pub mod Outcomes
mod Tests
