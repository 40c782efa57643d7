-- ===== src/Scaling.antt =====
-- Scaling ahead of the traffic: apps/core-api/src/prediction/resource_calculator.py, services/
-- prediction_service.py, services/scaling_service.py and services/scaler_service.py.
pub mod Calculator
pub mod Windows
pub mod Plans
pub mod Bounds
pub mod Replies
pub mod Prescale
pub mod Scaler
