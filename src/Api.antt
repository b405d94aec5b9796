-- ===== src/Api.antt =====
-- The types of pkg/apis/tf/v1beta1, one module for each family.
pub mod Task
pub mod Stage
pub mod Spec
pub mod Resource
