-- ===== src/Agent.antt =====
-- The governed agent loop: src/eiraos/application/agent_loop.py, with the budget of
-- src/eiraos/application/execution_budget.py and the tool authorization of
-- src/eiraos/application/tool_authorization.py.
pub mod Schema
pub mod Tool
pub mod Run
pub mod Loop
pub mod Trace
pub mod Paid
pub mod Governed
pub mod Runtime
pub mod Entitled
mod Tests
