-- ===== src/Ops/Rename/Replaced.antt =====
-- sotfs-ops/src/lib.rs, RENAME: the removal of what stands at the destination.
use sotfs.Base.{
  ℕ, ◌<◌, String, Bool, true, false, Option, none, some, List, [], ◌∷◌, ◌≡◌, refl, ap, ◌∙◌, arith,
  ◌==◌, eq_iff, if◌then◌else◌, Option-cases, Bool-cases, inl, inr, find,
}
use sotfs.Map
use sotfs.Map.{id_key, entry_key, or_default}
use sotfs.Map.Sets
use sotfs.Map.Sets.{find-passes}
use sotfs.Arena
use sotfs.Arena.{to_id}
use sotfs.Types.{InodeId, DirId, EdgeId, Edge, is_directory}
use sotfs.Error.{ok, first_ok, ok_or, dir_not_found, name_not_found}
use sotfs.Graph.{TypeGraph, node_capacity, edge_capacity, get_edge}
use sotfs.Graph.Names.{resolve_name, dir_for_inode}
use sotfs.Graph.Index.{index_of, entry, entry_of, edges_from}
use sotfs.Graph.Index.Resolve.{meaning, resolve_name-meaning}
use sotfs.Graph.Links.Nodes.{nodes_of, dir_at, WellFormed}
use sotfs.Ops.Action.{Clock}
use sotfs.Ops.Action.Rules.{check_rule, pure_rule}
use sotfs.Ops.Action.Success.{Ends, check-Ends, pure-Ends}
use sotfs.Ops.Steady.{ok_or-ok}
use sotfs.Ops.Link.{unlink, is_dot_name}
use sotfs.Ops.Link.Freed.{AllOther}
use sotfs.Ops.Link.Kept.{unlink-WellFormed}
use sotfs.Ops.Names.Unlinked.{unlink-resolve_name}
use sotfs.Ops.Rmdir.{rmdir, has_entries}
use sotfs.Ops.Rmdir.Entries.{contains_edge}
use sotfs.Ops.Rmdir.Removed.{rmdir-WellFormed}
use sotfs.Ops.Rmdir.Placed.{IsPlaced, has_entries_none}
use sotfs.Ops.Rmdir.Unlisted.{cleared, rmdir-resolve_name}
use sotfs.Ops.Rename.{replace, source_edge, is_source}
use sotfs.Ops.Rename.Directories.{unlink_next, unlink-IsDirInode, dir_inode, IsDirInode}
use sotfs.Ops.Rename.SameDirs.{unlink_dirs}

pub find-contains :
    (p : ℕ → Bool) (s : List ℕ) (k : ℕ) → find p s ≡ some k → Sets.contains k s ≡ true
unfolding find Sets.contains
find-contains p [] k h = absurd (cc)
find-contains p (i ∷ s) k h = ground (arith, find-contains p s k)

is_source_sound :
    (t : InodeId) (n : String) (o : Option Edge)
    → is_source t n o ≡ true
    → (i : EdgeId) × (d : DirId) × (o ≡ some (Edge.contains i d t n))
is_source_sound t n (some (Edge.contains i d t' n')) h = (i, d, ground (arith, eq_iff n' n))
is_source_sound t n (some (Edge.grants _ _ _ _)) h = absurd (cc)
is_source_sound t n (some (Edge.delegates _ _ _)) h = absurd (cc)
is_source_sound t n (some (Edge.derived_from _ _ _)) h = absurd (cc)
is_source_sound t n (some (Edge.supersedes _ _ _)) h = absurd (cc)
is_source_sound t n (some (Edge.points_to _ _ _ _)) h = absurd (cc)
is_source_sound t n (some (Edge.has_xattr _ _ _)) h = absurd (cc)
is_source_sound t n none h = absurd (cc)

-- The edge that the search for the source finds.
pub source_edge_sound :
    (g : TypeGraph) (dir : DirId) (name : String) (t : InodeId) (eid : EdgeId)
    → WellFormed g
    → source_edge dir name t g ≡ ok eid
    → (i : EdgeId) × (eid < edge_capacity)
      × (get_edge eid g ≡ some (Edge.contains i dir t name))
      × (entry eid (index_of g) ≡ some (dir, t, name))
unfolding source_edge entry get_edge
source_edge_sound g dir name t eid h found =
    let here = λ (k : EdgeId). is_source t name (get_edge k g) in
    let next = λ (edges : List EdgeId). ok_or (find here edges) (name_not_found name) in
    let (edges, searched, listed) =
      first_ok next eid (ok_or (Map.get dir g.dir_contains) (dir_not_found dir)) found in
    let hit = ok_or-ok _ _ searched in
    let (i, d, at) = is_source_sound t name (get_edge eid g) (find-passes here edges eid hit) in
    let member : Sets.contains eid (edges_from dir (index_of g)) ≡ true =
      ground (arith, find-contains here edges eid hit, ok_or-ok _ _ listed) in
    let low : eid < edge_capacity =
      omega (arith, h.index.from_below dir eid member, h.index.bounded) in
    let same : d ≡ dir = ground (arith, at, h.index.from_exact dir eid low, member) in
    (
      i,
      low,
      at ∙ ap (λ x. some (Edge.contains i x t name)) same,
      ap entry_of at ∙ ap (λ x. some (x, t, name)) same,
    )

module _ (g : TypeGraph) (h : WellFormed g) (dir : DirId) (name : String)
    (blocks : (i : InodeId) → AllOther (or_default [] (Map.get i g.inode_points_to)) g)
    (tree : (target : InodeId) (target_dir : DirId)
      → resolve_name dir name g ≡ some target
      → dir_for_inode target g ≡ some target_dir
      → IsPlaced g dir name target target_dir)
    (plain : is_dot_name name ≡ false) where
  removed :
      (fuel : ℕ) (clock : Clock) (b : Bool)
      → WellFormed ((if b then rmdir fuel clock dir name else unlink fuel clock dir name) g).1
  removed fuel clock true = rmdir-WellFormed g dir name fuel clock h tree
  removed fuel clock false = unlink-WellFormed g h dir name blocks fuel clock

  pub replace-WellFormed :
      (fuel : ℕ) (clock : Clock) (existing : Option InodeId)
      → WellFormed (replace fuel clock dir name existing g).1
  replace-WellFormed fuel clock none = pure_rule WellFormed _ g h
  replace-WellFormed fuel clock (some id) =
      check_rule WellFormed _ _ g h λ inode there. removed fuel clock (is_directory inode.vtype)

  -- What stood at the destination is gone, and the directory itself is still there.
  pub record Replaced (done : Unit {0}) (g' : TypeGraph) : Type 0 where
    pub free : resolve_name dir name g' ≡ none
    pub same_next : g'.next_edge ≡ g.next_edge
    pub same_dir : dir < node_capacity → dir_at dir (nodes_of g') ≡ dir_at dir (nodes_of g)
    pub same_inode :
        (i : InodeId)
        → i < node_capacity
        → dir_for_inode i g ≡ some dir
        → IsDirInode i g
        → IsDirInode i g'

  unlink-Replaced :
      (fuel : ℕ) (clock : Clock)
      → (unlink fuel clock dir name g).0 ≡ ok tt
      → Replaced tt (unlink fuel clock dir name g).1
  unlink-Replaced fuel clock done = record {
    free =
        unlink-resolve_name g h dir name blocks fuel clock done dir name
        ∙ ground (arith, eq_iff name name);
    same_next = unlink_next fuel clock dir name g;
    same_dir =
        λ low. unfold dir_at in ap (Arena.get (to_id dir)) (unlink_dirs fuel clock dir name g);
    same_inode = λ i low own. unlink-IsDirInode fuel clock dir name i g;
  }

  -- A directory with an entry of that name is not the empty one.
  other_dir :
      (target : InodeId) (target_dir : DirId)
      → resolve_name dir name g ≡ some target
      → has_entries g (edges_from target_dir (index_of g)) ≡ false
      → (target_dir == dir) ≡ false
  unfolding meaning
  other_dir target target_dir found empty =
      elim (Option-cases (Map.get (dir, name) g.dir_name_idx)) [
        | inl gone ↦ absurd (ground (arith, resolve_name-meaning g h.index dir name))
        | inr (e, at) ↦
            let (t, below, here) = h.index.sound dir name e at in
            let lt : e < edge_capacity = omega (arith, h.index.bounded) in
            let (i, edge) =
              contains_edge (get_edge e g) dir t name (unfold entry get_edge in here) in
            elim (Bool-cases (target_dir == dir)) [
              | inr other ↦ other
              | inl same ↦
                  let user =
                    has_entries_none g e (edges_from target_dir (index_of g)) empty
                      (ground (arith, same, h.index.from_exact target_dir e lt, here)) in
                  absurd (ground (arith, user, edge, plain))
            ]
      ]

  rmdir-Replaced :
      (fuel : ℕ) (clock : Clock)
      → (rmdir fuel clock dir name g).0 ≡ ok tt
      → Replaced tt (rmdir fuel clock dir name g).1
  rmdir-Replaced fuel clock done =
      let c = (cleared g h dir name tree fuel clock).ends tt done in
      let (d', node, names) = rmdir-resolve_name g h dir name tree fuel clock done in
      record {
        free = names dir name ∙ ground (arith, eq_iff name name);
        same_next = c.same_next;
        same_dir =
            λ low. ground (arith, c.dirs dir low, other_dir c.target c.target_dir c.found c.empty);
        same_inode = λ i low own there.
            ap dir_inode (c.inodes i low)
            ∙ ground (arith, there, own, c.node, other_dir c.target c.target_dir c.found c.empty);
      }

  replaced :
      (fuel : ℕ) (clock : Clock) (b : Bool) {done : Unit {0}}
      → ((if b then rmdir fuel clock dir name else unlink fuel clock dir name) g).0 ≡ ok done
      → Replaced tt ((if b then rmdir fuel clock dir name else unlink fuel clock dir name) g).1
  replaced fuel clock true done = rmdir-Replaced fuel clock done
  replaced fuel clock false done = unlink-Replaced fuel clock done

  pub replace-Ends :
      (fuel : ℕ) (clock : Clock) (existing : Option InodeId)
      → resolve_name dir name g ≡ existing
      → Ends Replaced (replace fuel clock dir name existing) g
  replace-Ends fuel clock none free = pure-Ends Replaced tt g (record {
    free = free;
    same_next = refl;
    same_dir = λ low. refl;
    same_inode = λ i low own there. there;
  })
  replace-Ends fuel clock (some id) found = check-Ends Replaced _ _ g λ inode there. record {
    ends = λ done was_ok. replaced fuel clock (is_directory inode.vtype) was_ok;
  }
