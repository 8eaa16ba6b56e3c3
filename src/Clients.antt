-- ===== src/Clients.antt =====
-- service/client.go, and the ban of service/config.go.
pub mod Limits
pub mod Reset
pub mod Deplete
pub mod Ban
pub mod Links
pub mod Save
