-- ===== src/Task/Timeouts.antt =====
-- Alarms of tasks that wait with a timeout, `wait_timeout` and `wait_timeout_until` of
-- modules/axtask/src/wait_queue.rs.
