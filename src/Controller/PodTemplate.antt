-- ===== src/Controller/PodTemplate.antt =====
-- The pod of a task: validateVolume and generatePod of pkg/controllers/terraform_controller.go.
-- The maps that the options share with the pod are not used again after the pod is made.
pub mod Validation
pub mod Env
pub mod Mounts
pub mod Template
pub mod Volumes
pub mod Contents
pub mod Labels
unfoldable pub use Validation.*
unfoldable pub use Env.*
unfoldable pub use Mounts.*
unfoldable pub use Template.*
