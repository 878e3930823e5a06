-- ===== src/Ops/Create/Ending.antt =====
-- sotfs-ops/src/lib.rs: the name check and the last steps that CREATE, MKDIR and SYMLINK share.
use sotfs.Base.{ℕ, String, false, ◌≡◌, arith, str_eq}
use sotfs.Types.{InodeId, DirId}
use sotfs.Graph.{TypeGraph}
use sotfs.Graph.Prov.{record_prov}
use sotfs.Graph.Links.Nodes.{WellFormed}
use sotfs.Provenance.{ProvOp}
use sotfs.Ops.Action.{modify, pure, ◌>>◌}
use sotfs.Ops.Action.Rules.{modify_rule, pure_rule, bind_rule}
use sotfs.Ops.Quota.{plus, minus, update_quota}
use sotfs.Ops.Steady.{update_quota-WellFormed, logged-WellFormed}
use sotfs.Ops.Create.{is_bad_name}

pub not_dotdot : (name : String) → is_bad_name name ≡ false → str_eq name ".." ≡ false
unfolding is_bad_name
not_dotdot name h = ground arith

-- The charge of the quotas and the entry in the log, by which CREATE and SYMLINK end.
pub finished-WellFormed :
    {A : Type 0} (src : DirId) (name : String) (fuel : ℕ) (now : ℕ) (op : ProvOp) (id : InodeId)
    (a : A) (g' : TypeGraph)
    → WellFormed g'
    → WellFormed
        ((do update_quota fuel src (plus 1) (minus 0); modify (record_prov now op id name); pure a)
          g').1
finished-WellFormed src name fuel now op id a g' h' =
    bind_rule WellFormed _ _ g' (update_quota-WellFormed (plus 1) (minus 0) fuel src g' h')
      (λ _ g'' h''. modify_rule WellFormed _ _ g'' (
        pure_rule WellFormed a (record_prov now op id name g'')
          (logged-WellFormed now op id name g'' h'')))
