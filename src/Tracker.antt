-- ===== src/Tracker.antt =====
-- The trackers that the core hooks into the router: core/tracker_conn.go and core/tracker_stats.go.
pub mod Conn
pub mod Stats
