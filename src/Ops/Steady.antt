-- ===== src/Ops/Steady.antt =====
-- What the operations have in common: their checks and their single steps, on well-formed graphs.
use sotfs.Base.{
  ℕ, ◌^◌, ◌%◌, String, Bool, true, false, not, Option, none, some, ◌≡◌, refl, arith, ltb, is_some,
  Option-cases, Bool-cases, inl, inr, ap, sym,
}
use sotfs.Map
use sotfs.Map.{Map, entry_key}
use sotfs.Arena
use sotfs.Arena.{Arena, to_id}
use sotfs.Types.{InodeId, DirId, Inode}
use sotfs.Error.{GraphError, ok, fail_if, ok_or}
use sotfs.Graph.{TypeGraph, node_capacity, contains_dir, adjust_inode}
use sotfs.Graph.Names.{resolve_name}
use sotfs.Graph.Prov.{record_prov}
use sotfs.Graph.Index.{index_of}
use sotfs.Graph.Index.Resolve.{meaning, resolve_name-meaning}
use sotfs.Graph.Links.Nodes.{nodes_of, dir_at, WellFormed, settled}
use sotfs.Graph.Links.Nodes.Steps.{adjust_inode-WellFormed}
use sotfs.Provenance.{ProvOp}
use sotfs.Ops.Quota.{Delta, update_quota}
use sotfs.Ops.Quota.Charge.{update_quota_keeps}

-- A free name in the index is one that does not resolve.
pub free_name :
    (g : TypeGraph) (d : DirId) (name : String)
    → WellFormed g
    → is_some (resolve_name d name g) ≡ false
    → Map.get (d, name) g.dir_name_idx ≡ none
unfolding meaning
free_name g d name h free = elim (Option-cases (Map.get (d, name) g.dir_name_idx)) [
  | inl none_there ↦ none_there
  | inr (e, at) ↦
      let (t, below, here) = h.index.sound d name e at in
      absurd (ground (arith, resolve_name-meaning g h.index d name))
]

pub update_quota-WellFormed :
    (inodes bytes : Delta) (fuel : ℕ) (d : DirId) (g : TypeGraph)
    → WellFormed g
    → WellFormed (update_quota fuel d inodes bytes g).1
update_quota-WellFormed inodes bytes fuel d g h = rw (update_quota_keeps inodes bytes fuel d g) h

pub fail_if-ok : (b : Bool) (e : GraphError) {u : Unit {0}} → fail_if b e ≡ ok u → b ≡ false
fail_if-ok true e h = absurd (cc)
fail_if-ok false e h = refl

pub present_dir :
    (g : TypeGraph) (d : DirId)
    → not (contains_dir d g) ≡ false
    → is_some (dir_at d (nodes_of g)) ≡ true
unfolding contains_dir dir_at Arena.get Arena.contains
present_dir g d h = ground arith

pub logged-WellFormed :
    (now : ℕ) (op : ProvOp) (id : InodeId) (detail : String) (g : TypeGraph)
    → WellFormed g
    → WellFormed (record_prov now op id detail g)
unfolding record_prov
logged-WellFormed now op id detail g h = h

pub ok_or-ok : {A : Type 0} (o : Option A) (e : GraphError) {a : A} → ok_or o e ≡ ok a → o ≡ some a
ok_or-ok none e h = absurd (cc)
ok_or-ok (some a) e h = cc

-- The arena keeps 32 bits of an id.
same_slot : (id : ℕ) → to_id (id % 2 ^ 32) ≡ to_id id
same_slot id = ap (λ i. record { index = i }) (omega arith)

adjust-beyond :
    {T : Type 0} {n : ℕ} (id : ℕ) (f : T → T) (a : Arena T n)
    → ltb (id % 2 ^ 32) n ≡ false
    → Arena.adjust (to_id id) f a ≡ a
unfolding Arena.adjust Arena.get
adjust-beyond id f a high = ground arith

-- A change of an inode that keeps its link count and its type.
pub touched-WellFormed :
    (id : InodeId) (f : Inode → Inode) (g : TypeGraph)
    → WellFormed g
    → ((inode : Inode) → (f inode).link_count ≡ inode.link_count)
    → ((inode : Inode) → (f inode).vtype ≡ inode.vtype)
    → WellFormed (adjust_inode id f g)
unfolding adjust_inode
touched-WellFormed id f g h count kind = elim (Bool-cases (ltb (id % 2 ^ 32) node_capacity)) [
  | inl low ↦ rw (sym (same_slot id)) (
      adjust_inode-WellFormed (nodes_of g) (index_of g) h (id % 2 ^ 32) f settled (ground arith)
        (λ i other. refl) (λ inode at. omega (arith, count inode)) kind)
  | inr high ↦ rw (adjust-beyond id f g.inodes high) h
]
