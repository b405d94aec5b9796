-- ===== src/Controller/Workflow.antt =====
-- The order of the tasks and the choice of the next stage: getConfiguredTasks, nextTask,
-- isTaskInterruptable, newStage and checkSetNewStage of pkg/controllers/terraform_controller.go.
pub mod Tasks
pub mod Decide
pub mod Scan
pub mod Configured
pub mod Orders
pub mod Next
pub mod Stages
pub mod Branches
pub mod Entries
pub mod Protected
pub mod Gates
pub mod Behind
unfoldable pub use Tasks.*
unfoldable pub use Decide.*
