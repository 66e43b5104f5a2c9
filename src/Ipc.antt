-- ===== src/Ipc.antt =====
-- server/internal/ipc: the protocol between the application and the service.
pub mod Envelope
pub mod Router
pub mod Answers
pub mod EventHub
pub mod ActiveRuns
pub mod Delivery
pub mod Dto
pub mod Convert
pub mod JobEdit
pub mod Backend
pub mod ServerHandlers
pub mod Handlers
pub mod Resave
pub mod RunHandlers
pub mod Contexts
pub mod Trust
pub mod SettingsTrip
