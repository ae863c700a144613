-- ===== src/Cluster/Memory.antt =====
-- Objects that are kept in memory, as association lists: an instance of the API server's behaviour.
use sandboxd_teleport.Valkey.Memory.{find, delete, put, keys, find-delete, find-put, keys_complete}
use sandboxd_teleport.Cluster.{Objects}
use sandboxd_teleport.Prelude.{String, List}

unfoldable pub in_memory : {V : Type 0} → Objects V
unfolding find delete put keys
in_memory {V} = record {
  Map = List (String × V);
  get = find;
  put = put;
  remove = delete;
  names = keys;
  get-put = find-put;
  get-remove = find-delete;
  names_complete = keys_complete;
}
