-- ===== src/Governance.antt =====
-- Authority: the capability model (src/eiraos/domains/governance/capabilities.py), the authorization
-- boundary (src/eiraos/application/authorization.py), and the provider gate
-- (src/eiraos/application/provider_execution_policy.py, src/eiraos/application/providers/policy.py).
pub mod Capabilities
pub mod Decision
pub mod Boundary
pub mod Models
pub mod Provider
pub mod Agreement
pub mod Permit
pub mod Roles
pub mod Nested
pub mod LeastPrivilege
pub mod Tenant
mod Tests
