-- ===== src/Task/Store.antt =====
-- internal/task/store.go: the operations of the task store, each one transaction.
--
-- An operation takes the driver of its call, the tables before it, and gives its result with the
-- tables after it. AUTOINCREMENT ids are counters of the tables. A limit that is negative in the
-- source refuses like 0 does here, except that no limit is checked for a task without a parent.
mod Create
mod Hold
mod Change
unfoldable pub use Create.*
unfoldable pub use Hold.*
unfoldable pub use Change.*
