-- ===== src/Health.antt =====
-- backend/app/health_logic.py: evaluate_health. A reason keeps its code, severity and interface.
-- Percentages are whole numbers; the quotient of the memory is compared exactly, by multiplication.
pub mod Signals
pub mod Engine
