-- ===== src/Cloud.antt =====
-- pkg/cloud: the driver's view of the EFS API.
pub mod Types
pub mod Client
