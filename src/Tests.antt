-- ===== src/Tests.antt =====
-- Instances of the theorems at concrete inputs, and tests of the definitions by evaluation.
mod Texts
mod Subjects
mod Plans
mod Routes
mod Logs
mod Stats
mod Functions
mod Following
mod Programs
mod Workflow
mod Composition
mod Services
