-- ===== src/Controller/Standalone.antt =====
-- opendps/controller/standalone.py: the control loop of one node.
pub mod Brains
pub mod Stats
pub mod Tick
pub mod Loop
pub mod DryRun
pub mod Counted
