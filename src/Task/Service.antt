-- ===== src/Task/Service.antt =====
-- internal/task/service.go: the entry point for task reads and writes.
--
-- A call takes the state behind the service (the tables, the audit events and the changes that were
-- fanned out) and gives its result with the state after it: an error undoes nothing of what the
-- call did before. Summaries and JSON details of audit events are left out. Case folding
-- (strings.ToLower, strings.EqualFold) is a parameter.
mod Base
mod Calls
unfoldable pub use Base.*
unfoldable pub use Calls.*
