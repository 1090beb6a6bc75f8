-- ===== src/Fault.antt =====
-- The fault package: app/engine/core/fault (models.py, detector.py, localizer.py).
pub mod Model
pub mod Detector
pub mod Localizer
pub mod Upstream
