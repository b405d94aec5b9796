-- ===== src/Tests.antt =====
-- The theorems at concrete inputs, and the values that they are applied to.
mod Fixtures
mod Store
mod Texts
mod Stages
mod Objects
mod Pods
mod Git
mod Addresses
mod Setups
mod Reconciles
mod Histories
mod Managers
mod Beginnings
mod Advancings
