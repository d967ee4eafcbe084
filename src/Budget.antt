-- ===== src/Budget.antt =====
-- Token budgets: the estimate (src/eiraos/domains/usage/cost_estimator.py), the Redis reservations
-- (src/eiraos/domains/usage/redis_reservation.py), their composition
-- (src/eiraos/domains/usage/execution_budget.py), and the in-process gate
-- (src/eiraos/core/usage_budget.py, src/eiraos/application/usage_execution.py).
pub mod Redis
pub mod Estimator
pub mod Reservation
pub mod Counters
pub mod Charging
pub mod Settlement
pub mod Release
pub mod Execution
pub mod Gate
pub mod Granting
mod Tests
