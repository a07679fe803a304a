-- ===== src/Dump/Ssh/Sets.antt =====
-- Sets of byte strings as lists, which keep the laws that are asked of the crate linked_hash_set.
use pqcscan.Base.{List, [], Bytes}
use pqcscan.Base.Dict.{bytes_eq, contains-nil, set_insert, contains-set_insert}
use pqcscan.Dump.Ssh.Sessions.{LinkedHashSet}

abbrev pub list_sets : LinkedHashSet
list_sets = record {
  Set = List Bytes;
  empty = [];
  insert_into = set_insert;
  elements = λ s. s;
  contains-empty = λ b. contains-nil b;
  contains-insert = λ a b s. contains-set_insert a b s;
}
