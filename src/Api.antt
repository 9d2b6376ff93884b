-- ===== src/Api.antt =====
-- api/v1alpha1: the custom resource, its status and its translation to a MultiNetworkPolicy.
pub mod Reason
pub mod Types
pub mod Ip
pub mod Fqdn
pub mod Status
pub mod Conditions
pub mod Translate
pub mod DeepCopy
pub mod Admission
pub mod Scheme
