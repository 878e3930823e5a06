-- ===== src/Graph/Links/Nodes/Steps.antt =====
-- graph.rs: the steps that change the inodes and directories of a well-formed graph.
use sotfs.Base.{
  ℕ, ◌+◌, ◌<◌, false, none, some, [], ◌∷◌, ◌≡◌, refl, arith, ◌==◌, Option-cases, inl, inr, count,
  if◌then◌else◌,
}
use mathlib.Core.Option
use sotfs.Map.{id_key}
use sotfs.Map.Sets
use sotfs.Arena
use sotfs.Arena.{to_id}
use sotfs.Types.{EdgeId, DirId, InodeId, Inode, Directory}
use sotfs.Graph.{node_capacity, edge_capacity, bump}
use sotfs.Graph.Index.{Index, entry, edges_to, enters, leaves, IsIndexed}
use sotfs.Graph.Links.{links}
use sotfs.Graph.Links.Nodes.{Nodes, inode_at, dir_at, IsWellFormed}

pub nil_of_none : (xs : Sets.IdSet) → ((e : ℕ) → Sets.contains e xs ≡ false) → xs ≡ []
unfolding Sets.contains
nil_of_none [] no_one = refl
nil_of_none (x ∷ xs) no_one = ground (arith, no_one x)

-- An inode that no edge of the pool enters has no incoming edge in its index.
pub edges_to-nil :
    (i : InodeId) (s : Index)
    → IsIndexed s
    → ((e : EdgeId) → e < edge_capacity → enters i (entry e s) ≡ false)
    → edges_to i s ≡ []
edges_to-nil i s h none_enters =
    nil_of_none (edges_to i s)
      (λ e. ground (arith, h.to_below i e, h.bounded, h.to_exact i e, none_enters e))

module _ {due : InodeId → ℕ} (n : Nodes) (s : Index) (h : IsWellFormed due n s) where
  pub bump_inode-WellFormed :
      n.next_inode < node_capacity
      → IsWellFormed due (record n { next_inode = bump n.next_inode }) s
  unfolding inode_at dir_at
  bump_inode-WellFormed room = record {
    index = h.index;
    increasing = h.increasing;
    inodes_bounded = omega arith;
    dirs_bounded = h.dirs_bounded;
    inodes_vacant = λ i le lt. h.inodes_vacant i (omega arith) lt;
    dirs_vacant = h.dirs_vacant;
    link_counts = h.link_counts;
    endpoints = h.endpoints;
    dotdots = h.dotdots;
  }

  pub bump_dir-WellFormed :
      n.next_dir < node_capacity → IsWellFormed due (record n { next_dir = bump n.next_dir }) s
  unfolding inode_at dir_at
  bump_dir-WellFormed room = record {
    index = h.index;
    increasing = h.increasing;
    inodes_bounded = h.inodes_bounded;
    dirs_bounded = omega arith;
    inodes_vacant = h.inodes_vacant;
    dirs_vacant = λ i le lt. h.dirs_vacant i (omega arith) lt;
    link_counts = h.link_counts;
    endpoints = h.endpoints;
    dotdots = h.dotdots;
  }

  -- No edge enters an inode that is not there.
  vacant_enters :
      (i : InodeId)
      → inode_at i n ≡ none
      → (e : EdgeId) → e < edge_capacity
      → enters i (entry e s) ≡ false
  vacant_enters i gone e lt = elim (Option-cases (entry e s)) [
    | inl nothing ↦ rw nothing
    | inr ((d, t, name), at) ↦ rw at (ground (arith, h.endpoints e d t name lt at))
  ]

  links-vacant : (i : InodeId) → i < node_capacity → inode_at i n ≡ none → links i s ≡ 0
  unfolding links count
  links-vacant i lt gone = rw (edges_to-nil i s h.index (vacant_enters i gone))

  module _ (id : InodeId) (inode : Inode) where
    abbrev with_inode : Nodes
    with_inode = record n { inodes = (Arena.insert_at (to_id id) inode n.inodes).1 }

    pub inode_at-insert :
        (j : InodeId)
        → id < node_capacity
        → j < node_capacity
        → inode_at id n ≡ none
        → inode_at j with_inode ≡ (if id == j then some inode else inode_at j n)
    unfolding inode_at Arena.get Arena.insert_at
    inode_at-insert j a b c = ground arith

    -- A new inode owes the links that its count promises.
    pub insert_inode-WellFormed :
        id < n.next_inode
        → inode_at id n ≡ none
        → IsWellFormed (λ i. if id == i then inode.link_count else due i) with_inode s
    unfolding dir_at
    insert_inode-WellFormed low gone = record {
      index = h.index;
      increasing = h.increasing;
      inodes_bounded = h.inodes_bounded;
      dirs_bounded = h.dirs_bounded;
      inodes_vacant =
          λ i le lt. ground (arith, inode_at-insert i, h.inodes_vacant i le lt, h.inodes_bounded);
      dirs_vacant = h.dirs_vacant;
      link_counts = λ i nd lt at.
          ground
            (arith, inode_at-insert i, h.link_counts i nd, h.inodes_bounded, links-vacant i lt);
      endpoints = λ e d t name lt at.
          ground (arith, inode_at-insert t, h.inodes_bounded, h.endpoints e d t name lt at);
      dotdots = λ e d t name nd lt at up there. ground (
        arith,
        inode_at-insert t,
        h.inodes_bounded,
        h.endpoints e d t name lt at,
        h.dotdots e d t name nd lt at up,
      );
    }

  module _ (id : InodeId) (f : Inode → Inode) where
    abbrev adjusted : Nodes
    adjusted = record n { inodes = Arena.adjust (to_id id) f n.inodes }

    pub inode_at-adjust :
        (j : InodeId)
        → id < node_capacity
        → j < node_capacity
        → inode_at j adjusted ≡ (if id == j then Option.map f (inode_at j n) else inode_at j n)
    unfolding inode_at Arena.get Arena.adjust
    inode_at-adjust j a b = ground arith

    -- A change of one inode's link count moves what is due to it.
    pub adjust_inode-WellFormed :
        (due' : InodeId → ℕ)
        → id < node_capacity
        → ((i : InodeId) → (id == i) ≡ false → due' i ≡ due i)
        → ((inode : Inode)
            → inode_at id n ≡ some inode
            → (f inode).link_count + due id ≡ inode.link_count + due' id)
        → ((inode : Inode) → (f inode).vtype ≡ inode.vtype)
        → IsWellFormed due' adjusted s
    unfolding dir_at
    adjust_inode-WellFormed due' low others moved kept = record {
      index = h.index;
      increasing = h.increasing;
      inodes_bounded = h.inodes_bounded;
      dirs_bounded = h.dirs_bounded;
      inodes_vacant = λ i le lt. ground (arith, inode_at-adjust i, h.inodes_vacant i le lt);
      dirs_vacant = h.dirs_vacant;
      link_counts = λ i nd lt at. elim (Option-cases (inode_at i n)) [
        | inl nothing ↦ ground (arith, inode_at-adjust i)
        | inr (old, was) ↦
            ground (arith, inode_at-adjust i, h.link_counts i old lt was, others i, moved old)
      ];
      endpoints =
          λ e d t name lt at. ground (arith, inode_at-adjust t, h.endpoints e d t name lt at);
      dotdots = λ e d t name nd lt at up there. elim (Option-cases (inode_at t n)) [
        | inl nothing ↦ ground (arith, h.endpoints e d t name lt at)
        | inr (old, was) ↦ ground (
          arith,
          inode_at-adjust t,
          h.endpoints e d t name lt at,
          h.dotdots e d t name old lt at up was,
          kept old,
        )
      ];
    }

  module _ (id : InodeId) where
    abbrev without_inode : Nodes
    without_inode = record n { inodes = (Arena.remove (to_id id) n.inodes).1 }

    pub inode_at-remove :
        (j : InodeId)
        → id < node_capacity
        → j < node_capacity
        → inode_at j without_inode ≡ (if id == j then none else inode_at j n)
    unfolding inode_at Arena.get Arena.remove
    inode_at-remove j a b = ground arith

    -- An inode that no edge enters can go.
    pub remove_inode-WellFormed :
        id < node_capacity
        → ((e : EdgeId) → e < edge_capacity → enters id (entry e s) ≡ false)
        → IsWellFormed due without_inode s
    unfolding dir_at
    remove_inode-WellFormed low unused = record {
      index = h.index;
      increasing = h.increasing;
      inodes_bounded = h.inodes_bounded;
      dirs_bounded = h.dirs_bounded;
      inodes_vacant = λ i le lt. ground (arith, inode_at-remove i, h.inodes_vacant i le lt);
      dirs_vacant = h.dirs_vacant;
      link_counts = λ i nd lt at. ground (arith, inode_at-remove i, h.link_counts i nd lt);
      endpoints = λ e d t name lt at.
          ground (arith, inode_at-remove t, h.endpoints e d t name lt at, unused e lt);
      dotdots = λ e d t name nd lt at up there. ground (
        arith,
        inode_at-remove t,
        h.endpoints e d t name lt at,
        h.dotdots e d t name nd lt at up,
      );
    }

  module _ (id : DirId) (dir : Directory) where
    abbrev with_dir : Nodes
    with_dir = record n { dirs = (Arena.insert_at (to_id id) dir n.dirs).1 }

    pub dir_at-insert :
        (j : DirId)
        → id < node_capacity
        → j < node_capacity
        → dir_at id n ≡ none
        → dir_at j with_dir ≡ (if id == j then some dir else dir_at j n)
    unfolding dir_at Arena.get Arena.insert_at
    dir_at-insert j a b c = ground arith

    pub insert_dir-WellFormed : id < n.next_dir → dir_at id n ≡ none → IsWellFormed due with_dir s
    unfolding inode_at
    insert_dir-WellFormed low gone = record {
      index = h.index;
      increasing = h.increasing;
      inodes_bounded = h.inodes_bounded;
      dirs_bounded = h.dirs_bounded;
      inodes_vacant = h.inodes_vacant;
      dirs_vacant =
          λ i le lt. ground (arith, dir_at-insert i, h.dirs_vacant i le lt, h.dirs_bounded);
      link_counts = h.link_counts;
      endpoints = λ e d t name lt at.
          ground (arith, dir_at-insert d, h.dirs_bounded, h.endpoints e d t name lt at);
      dotdots = h.dotdots;
    }

  module _ (id : DirId) where
    abbrev without_dir : Nodes
    without_dir = record n { dirs = (Arena.remove (to_id id) n.dirs).1 }

    dir_at-remove :
        (j : DirId)
        → id < node_capacity
        → j < node_capacity
        → dir_at j without_dir ≡ (if id == j then none else dir_at j n)
    unfolding dir_at Arena.get Arena.remove
    dir_at-remove j a b = ground arith

    -- A directory that no edge leaves can go.
    pub remove_dir-WellFormed :
        id < node_capacity
        → ((e : EdgeId) → e < edge_capacity → leaves id (entry e s) ≡ false)
        → IsWellFormed due without_dir s
    unfolding inode_at
    remove_dir-WellFormed low unused = record {
      index = h.index;
      increasing = h.increasing;
      inodes_bounded = h.inodes_bounded;
      dirs_bounded = h.dirs_bounded;
      inodes_vacant = h.inodes_vacant;
      dirs_vacant = λ i le lt. ground (arith, dir_at-remove i, h.dirs_vacant i le lt);
      link_counts = h.link_counts;
      endpoints = λ e d t name lt at.
          ground (arith, dir_at-remove d, h.endpoints e d t name lt at, unused e lt);
      dotdots = h.dotdots;
    }

-- What is due may be written in another way.
pub WellFormed_congr :
    {due : InodeId → ℕ} (due' : InodeId → ℕ) (n : Nodes) (s : Index)
    → IsWellFormed due n s
    → ((i : InodeId) → due i ≡ due' i)
    → IsWellFormed due' n s
WellFormed_congr due' n s h same = record {
  index = h.index;
  increasing = h.increasing;
  inodes_bounded = h.inodes_bounded;
  dirs_bounded = h.dirs_bounded;
  inodes_vacant = h.inodes_vacant;
  dirs_vacant = h.dirs_vacant;
  link_counts = λ i inode lt at. omega (arith, h.link_counts i inode lt at, same i);
  endpoints = h.endpoints;
  dotdots = h.dotdots;
}

-- What is due at an inode that is not there does not matter.
pub absolved-WellFormed :
    {due : InodeId → ℕ} (due' : InodeId → ℕ) (n : Nodes) (s : Index)
    → IsWellFormed due n s
    → ((i : InodeId) (inode : Inode)
        → i < node_capacity
        → inode_at i n ≡ some inode
        → due i ≡ due' i)
    → IsWellFormed due' n s
absolved-WellFormed due' n s h same = record {
  index = h.index;
  increasing = h.increasing;
  inodes_bounded = h.inodes_bounded;
  dirs_bounded = h.dirs_bounded;
  inodes_vacant = h.inodes_vacant;
  dirs_vacant = h.dirs_vacant;
  link_counts = λ i inode lt at. omega (arith, h.link_counts i inode lt at, same i inode lt at);
  endpoints = h.endpoints;
  dotdots = h.dotdots;
}
