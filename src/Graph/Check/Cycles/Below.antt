-- ===== src/Graph/Check/Cycles/Below.antt =====
-- graph.rs: the order of the directory tree, apart from any walk. A directory is below another if
-- entries other than "." and ".." lead down to it.
use sotfs.Base.{true, some, [], ◌≡◌, ◌⊎◌}
use sotfs.Map
use sotfs.Map.{id_key, or_default}
use sotfs.Map.Sets
use sotfs.Types.{DirId, EdgeId}
use sotfs.Graph.{TypeGraph, get_edge}
use sotfs.Graph.Check.Cycles.{child_dir}

abbrev pub entries_of : DirId → TypeGraph → Sets.IdSet
entries_of d g = or_default [] (Map.get d g.dir_contains)

-- An entry of `d` leads to the directory `c`.
abbrev pub Child : TypeGraph → DirId → DirId → Type 0
Child g d c =
    (e : EdgeId) × (Sets.contains e (entries_of d g) ≡ true) × (child_dir g (get_edge e g) ≡ some c)

pub data Below (g : TypeGraph) : DirId → DirId → Type 0 where
  child : {d c : DirId} → Child g d c → Below g d c
  deeper : {d c x : DirId} → Child g d c → Below g c x → Below g d x

pub Below-trans : {g : TypeGraph} {a b c : DirId} → Below g a b → Below g b c → Below g a c
Below-trans (child s) q = deeper s q
Below-trans (deeper s p) q = deeper s (Below-trans p q)

-- `d` is `start` or below it.
abbrev pub Within : TypeGraph → DirId → DirId → Type 0
Within g start d = (d ≡ start) ⊎ Below g start d
