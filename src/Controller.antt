-- ===== src/Controller.antt =====
-- The controllers of internal/controller.
pub mod Objects
pub mod Api
pub mod NodeHealth
pub mod TrainingObjects
pub mod AdmitToRunning
pub mod TrainingApi
pub mod TrainingJob
