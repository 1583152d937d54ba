-- ===== src/Taskboard.antt =====
-- The example app of the repository, examples/taskboard: the event bus of its services and the order of a
-- list's tasks. Its rows are in SQLite, whose statements are not modelled.
pub mod Events
pub mod Listeners
pub mod Order
pub mod Rules
