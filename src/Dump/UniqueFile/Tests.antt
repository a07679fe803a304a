-- ===== src/Dump/UniqueFile/Tests.antt =====
-- A run in a directory where some names are taken.
use pqcscan.Base.{some, ◌∷◌, ◌++◌, Bytes, codes, equal, ok, if◌then◌else◌}
use pqcscan.Dump.UniqueFile.{
  Opened, created, already_exists, PathParts, create_unique_file, candidate_name,
}
use pqcscan.Dump.UniqueFile.FirstFree.{FirstFree, candidates, create_unique_file-FirstFree}

abbrev parts : PathParts
parts = record { parent = codes "out"; stem = codes "r"; ext = some (codes "html") }

abbrev join : Bytes → Bytes → Bytes
join parent name = parent ++ (b'/' ∷ name)

-- Only the path and its first numbered name are taken.
abbrev open_new : Bytes → Opened
open_new p =
    if equal p (codes "out/r.html")
    then already_exists
    else if equal p (codes "out/r-01.html")
    then already_exists
    else created

create_unique_file-FirstFree_example :
    FirstFree open_new
      (codes "out/r.html")
      (codes "out/r.html" ∷ candidates join parts 1 99)
      (ok (codes "out/r-02.html"))
unfolding create_unique_file equal candidate_name
create_unique_file-FirstFree_example =
    create_unique_file-FirstFree join open_new (codes "out/r.html") parts
