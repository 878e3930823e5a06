-- ===== src/Ops/Rmdir/Placed.antt =====
-- sotfs-ops/src/lib.rs, RMDIR: where the directory that goes stands in the tree.
use sotfs.Base.{
  ◌<◌, String, Bool, true, false, ◌&&◌, ◌||◌, Option, none, some, List, [], ◌∷◌, ◌++◌, ◌≡◌, refl,
  ap, arith, ◌==◌, ==_iff, ◌⊎◌, inl, inr, eq_iff, str_eq, if◌then◌else◌, Option-cases, Bool-cases,
}
use sotfs.Map
use sotfs.Map.{id_key, entry_key, or_default}
use sotfs.Map.Sets
use sotfs.Types.{InodeId, DirId, EdgeId, Edge}
use sotfs.Graph.{TypeGraph, node_capacity, edge_capacity, get_edge}
use sotfs.Graph.Names.{resolve_name}
use sotfs.Graph.Index.{index_of, entry, entry_of}
use sotfs.Graph.Index.Resolve.{meaning, resolve_name-meaning}
use sotfs.Graph.Links.Nodes.{WellFormed}
use sotfs.Ops.Rmdir.{has_entries, is_user_entry, is_entry_of, parent_entries}
use sotfs.Ops.Rmdir.Entries.{MayGo, contains_edge}

-- The directory node `target_dir` of `target` stands in the tree: its "." leads to its own inode,
-- and only its parent and its own entries lead there.
pub record IsPlaced (g : TypeGraph) (parent : DirId) (name : String) (target : InodeId)
    (target_dir : DirId) : Type 0 where
  pub low : target_dir < node_capacity
  pub dot :
      (e : EdgeId) (t : InodeId)
      → e < edge_capacity
      → entry e (index_of g) ≡ some (target_dir, t, ".")
      → t ≡ target
  pub sole :
      (e : EdgeId) (d : DirId) (n : String)
      → e < edge_capacity
      → entry e (index_of g) ≡ some (d, target, n)
      → (d ≡ target_dir) ⊎ ((d ≡ parent) × (n ≡ name))

pub contains-append :
    (e : EdgeId) (xs ys : List EdgeId)
    → Sets.contains e (xs ++ ys) ≡ (Sets.contains e xs || Sets.contains e ys)
unfolding Sets.contains
contains-append e [] ys = refl
contains-append e (x ∷ xs) ys = ground (arith, contains-append e xs ys)

contains_kept :
    (kept passes : Bool) (x e : EdgeId) (rest eids : List EdgeId)
    → Sets.contains e rest ≡ (Sets.contains e eids && passes)
    → ((x == e) ≡ true → kept ≡ passes)
    → Sets.contains e (if kept then x ∷ rest else rest)
      ≡ ((x == e || Sets.contains e eids) && passes)
unfolding Sets.contains
contains_kept kept passes x e rest eids ih same = ground (arith, same)

pub contains-parent_entries :
    (target : InodeId) (name : String) (g : TypeGraph) (e : EdgeId) (eids : List EdgeId)
    → Sets.contains e (parent_entries target name g eids)
      ≡ (Sets.contains e eids && is_entry_of target name (get_edge e g))
unfolding Sets.contains parent_entries
contains-parent_entries target name g e [] = refl
contains-parent_entries target name g e (x ∷ eids) =
    contains_kept (is_entry_of target name (get_edge x g)) (is_entry_of target name (get_edge e g))
      x e (parent_entries target name g eids) eids (contains-parent_entries target name g e eids)
      (λ same. ap (λ k. is_entry_of target name (get_edge k g)) ((==_iff x e).0 same))

pub has_entries_none :
    (g : TypeGraph) (e : EdgeId) (eids : List EdgeId)
    → has_entries g eids ≡ false
    → Sets.contains e eids ≡ true
    → is_user_entry (get_edge e g) ≡ false
unfolding Sets.contains has_entries
has_entries_none g e [] h m = absurd (cc)
has_entries_none g e (x ∷ eids) h m = ground (arith, has_entries_none g e eids)

-- The name leads to an inode whose id is in range.
pub resolved_low :
    (g : TypeGraph) (d : DirId) (name : String) (t : InodeId)
    → WellFormed g
    → resolve_name d name g ≡ some t
    → t < node_capacity
unfolding meaning
resolved_low g d name t h found = elim (Option-cases (Map.get (d, name) g.dir_name_idx)) [
  | inl gone ↦ absurd (ground (arith, resolve_name-meaning g h.index d name))
  | inr (e, at) ↦
      let (i, below, here) = h.index.sound d name e at in
      ground (arith, resolve_name-meaning g h.index d name, h.endpoints e d i name, h.index.bounded)
]

-- An entry of an empty directory may go, and so may the entry of its parent.
pub entry_MayGo :
    (target : InodeId) (o : Option Edge)
    → is_user_entry o ≡ false
    → ((d : DirId) (t : InodeId) → entry_of o ≡ some (d, t, ".") → t ≡ target)
    → MayGo target (entry_of o)
entry_MayGo target (some (Edge.contains i d t n)) plain dot = elim (Bool-cases (str_eq n "..")) [
  | inl up ↦ inr up
  | inr down ↦ inl (dot d t (ground (arith, eq_iff n ".")))
]
entry_MayGo target (some (Edge.grants _ _ _ _)) plain dot = tt
entry_MayGo target (some (Edge.delegates _ _ _)) plain dot = tt
entry_MayGo target (some (Edge.derived_from _ _ _)) plain dot = tt
entry_MayGo target (some (Edge.supersedes _ _ _)) plain dot = tt
entry_MayGo target (some (Edge.points_to _ _ _ _)) plain dot = tt
entry_MayGo target (some (Edge.has_xattr _ _ _)) plain dot = tt
entry_MayGo target none plain dot = tt

pub parent_MayGo :
    (target : InodeId) (name : String) (o : Option Edge)
    → is_entry_of target name o ≡ true
    → MayGo target (entry_of o)
parent_MayGo target name (some (Edge.contains i d t n)) hit = inl (ground arith)
parent_MayGo target name (some (Edge.grants _ _ _ _)) hit = tt
parent_MayGo target name (some (Edge.delegates _ _ _)) hit = tt
parent_MayGo target name (some (Edge.derived_from _ _ _)) hit = tt
parent_MayGo target name (some (Edge.supersedes _ _ _)) hit = tt
parent_MayGo target name (some (Edge.points_to _ _ _ _)) hit = tt
parent_MayGo target name (some (Edge.has_xattr _ _ _)) hit = tt
parent_MayGo target name none hit = tt

pub is_entry_of-contains :
    (target : InodeId) (name : String) (o : Option Edge) (d : DirId)
    → entry_of o ≡ some (d, target, name)
    → is_entry_of target name o ≡ true
is_entry_of-contains target name o d h =
    let (i, at) = contains_edge o d target name h in rw at (ground (arith, eq_iff name name))
