-- ===== src/Assign/Sessions/Interleaved.antt =====
-- DeleteSession of assign.go is three commands: what another client's write between them comes to.
use sandboxd_teleport.Valkey.{Valkey}
use sandboxd_teleport.Assign.Table.{Table}
