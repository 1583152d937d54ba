-- ===== src/Tests.antt =====
-- Runs of the models on concrete inputs, and the theorems at such inputs.
mod Web
mod Limits
mod Routes
mod Requests
mod Runs
mod Binding
mod Links
mod Taskboard
mod Bodies
