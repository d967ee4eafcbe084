-- ===== src/Pricing.antt =====
-- What a call of a provider costs: the catalog of models,
-- src/eiraos/application/providers/capability_discovery.py, the models that the guard of
-- src/eiraos/application/providers/governed.py offers, and the accountant of
-- src/eiraos/application/cost_accounting.py.
pub mod Catalog
pub mod Account
pub mod Listed
pub mod Priced
pub mod Discovery
mod Tests
