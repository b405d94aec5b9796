-- ===== src/Controller.antt =====
-- pkg/controllers/terraform_controller.go, one module for each part of the controller.
pub mod Workflow
pub mod Options
pub mod PodTemplate
pub mod Objects
pub mod Ensure
pub mod Run
pub mod Finalizers
pub mod GitAccess
pub mod Status
pub mod Reconcile
pub mod Plugins
pub mod Cleanup
pub mod Addresses
pub mod Packages
pub mod Setup
pub mod NodeSelectors
