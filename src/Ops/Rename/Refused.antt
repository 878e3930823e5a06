-- ===== src/Ops/Rename/Refused.antt =====
-- sotfs-ops/src/lib.rs, RENAME: the guard GC-RENAME-2 against cycles.
use sotfs.Base.{ℕ, ◌<◌, String, true, false, ◌||◌, some, ◌≡◌, refl, sym, arith, ◌==◌, length, ◌⊎◌}
use sotfs.Types.{InodeId, DirId, Inode, is_directory}
use sotfs.Types.Right
use sotfs.Error.{ok, err, would_create_cycle}
use sotfs.Graph.{TypeGraph, get_inode}
use sotfs.Graph.Names.{resolve_name, dir_for_inode}
use sotfs.Graph.Prov.{require_cap}
use sotfs.Graph.Check.Cycles.{is_ancestor}
use sotfs.Graph.Check.Cycles.Below.{Below}
use sotfs.Graph.Check.Cycles.Search.{is_ancestor_iff}
use sotfs.Ops.Action.{Clock, ◌>>=◌}
use sotfs.Ops.Link.{is_dot_name}
use sotfs.Ops.Rename.{rename, rename_cross_dir, check_no_cycle}

module _ (g : TypeGraph) (fuel : ℕ) (src_dir dst_dir moved : DirId) (src_name dst_name : String)
    (i : InodeId) (inode : Inode) (named : resolve_name src_dir src_name g ≡ some i)
    (there : get_inode i g ≡ some inode) (is_dir : is_directory inode.vtype ≡ true)
    (node : dir_for_inode i g ≡ some moved) (below : (dst_dir ≡ moved) ⊎ Below g moved dst_dir)
    (enough : length g.dir_contains < fuel) where
  finds : is_ancestor fuel g moved dst_dir ≡ some true
  finds =
      let (b, search, meaning) = is_ancestor_iff fuel g moved dst_dir enough in
      rw (sym (meaning.1 below)) search

  refuses : check_no_cycle fuel i dst_dir g ≡ err would_create_cycle
  unfolding check_no_cycle
  refuses = ground (arith, there, is_dir, node, finds)

  -- RENAME to another directory refuses to move a directory into itself or below itself, and leaves
  -- the graph as it was, with fuel for more calls than `dir_contains` has entries.
  pub rename_refuses_cycle :
      (clock : Clock)
      → require_cap Right.write g ≡ ok tt
      → (is_dot_name src_name || is_dot_name dst_name) ≡ false
      → (src_dir == dst_dir) ≡ false
      → rename fuel clock src_dir src_name dst_dir dst_name g ≡ (err would_create_cycle, g)
  unfolding rename rename_cross_dir ◌>>=◌
  rename_refuses_cycle clock allowed plain other = rw (allowed, plain, other, named, refuses) refl
