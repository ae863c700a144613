-- ===== src/Assign.antt =====
-- checkpoint-restore/controlplane/internal/assign/assign.go: the assignment table. Each Lua script is
-- one function on the table, since the server runs a script as one step. The keys `session:<sid>`,
-- `worker:<pod>`, `pool:<pool>:idle`, `pool:<pool>:all` and the two `idx:` keys are six fields.
-- An entry stands for its JSON text; the connection itself does not fail.
pub mod Table
pub mod Sessions
pub mod Workers
pub mod History
