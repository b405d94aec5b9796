-- ===== src/Controller/Reconcile.antt =====
-- The steps of Reconcile of pkg/controllers/terraform_controller.go that change the resource.
pub mod Start
pub mod Marking
pub mod Adopting
pub mod Finish
pub mod Watch
pub mod PluginUses
pub mod Prepare
pub mod Passing
pub mod Progress
pub mod Restart
pub mod Sidecars
pub mod Program
pub mod Locked
pub mod Histories
pub mod Naming
pub mod FirstSteps
pub mod Beginning
pub mod Watching
pub mod Advancing
pub mod Moving
pub mod SpecKept
unfoldable pub use Start.*
unfoldable pub use Marking.*
unfoldable pub use Adopting.*
unfoldable pub use Finish.*
unfoldable pub use Watch.*
unfoldable pub use PluginUses.*
