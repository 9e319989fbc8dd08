-- ===== src/Policy.antt =====
-- src/policy: the plans of the tenants, and the tables of what runs in the cluster.
pub mod Plan
pub mod TenantDb
pub mod TopicStats
pub mod FeatureCodes
pub mod TenantList
pub mod AdminApi
pub mod Startup
