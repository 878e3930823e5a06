-- ===== src/Ops/Link/Kept.antt =====
-- sotfs-ops/src/lib.rs: UNLINK on well-formed graphs.
use sotfs.Base.{
  ℕ, ◌<◌, String, true, false, Option, none, some, List, [], ◌∷◌, ◌≡◌, refl, sym, ap, ◌∙◌, arith,
  ◌==◌, eq_iff, if◌then◌else◌, Option-cases, Bool-cases, inl, inr,
}
use mathlib.Core.Path.{subst₂}
use sotfs.Map
use sotfs.Map.{Map, id_key, entry_key, or_default}
use sotfs.Map.Sets
use sotfs.Arena
use sotfs.Arena.{to_id}
use sotfs.Types.{InodeId, DirId, EdgeId, Inode, Edge, is_directory}
use sotfs.Error.{ok, ok_or, dir_not_found, name_not_found, first_ok, ◌>>=◌ as ◌>>?◌}
use sotfs.Graph.{
  TypeGraph, node_capacity, edge_capacity, remove_edge, drop_outgoing, drop_incoming, adjust_inode,
  get_inode, get_edge,
}
use sotfs.Graph.Index.{index_of, entry, edges_to, enters}
use sotfs.Graph.Index.Drop.{cut_edge, entry-cut_edge, index_of-remove_edge}
use sotfs.Graph.Links.{links, counted}
use sotfs.Map.Sets.Order.{count-le, count-pos}
use sotfs.Graph.Links.Nodes.{Nodes, nodes_of, inode_at, IsWellFormed, WellFormed, settled}
use sotfs.Graph.Links.Nodes.Steps.{inode_at-adjust, adjust_inode-WellFormed}
use sotfs.Graph.Links.Nodes.Edges.{cut_edge-WellFormed}
use sotfs.Ops.Action.{Clock}
use sotfs.Ops.Action.Rules.{check_rule, modify_rule, gets_rule, when_rule, bind_rule, last_rule}
use sotfs.Ops.Quota.{minus}
use sotfs.Ops.Steady.{update_quota-WellFormed, fail_if-ok, ok_or-ok, logged-WellFormed}
use sotfs.Ops.Link.{
  unlink, links_left, collect_inode, fewer_links, is_dot_name, find_entry, named_target,
}
use sotfs.Ops.Link.Freed.{AllOther, nodes_of-remove_edge, collect_inode-WellFormed}

named_target_sound :
    (name : String) (x : EdgeId) (o : Option Edge) {e : EdgeId} {t : InodeId}
    → named_target name x o ≡ some (e, t)
    → (i : EdgeId) × (d : DirId) × (o ≡ some (Edge.contains i d t name)) × (x ≡ e)
named_target_sound name x (some (Edge.contains i d t n)) h =
    (i, d, ground (arith, eq_iff n name), ground arith)
named_target_sound name x none h = absurd (cc)
named_target_sound name x (some _) h = absurd (cc)

find_entry_sound :
    (name : String) (g : TypeGraph) (eids : List EdgeId) {e : EdgeId} {t : InodeId}
    → find_entry name g eids ≡ some (e, t)
    → (i : EdgeId) × (d : DirId) × (get_edge e g ≡ some (Edge.contains i d t name))
      × (Sets.contains e eids ≡ true)
unfolding find_entry Sets.contains
find_entry_sound name g [] h = absurd (cc)
find_entry_sound name g (x ∷ eids) {e} {t} h =
    elim (Option-cases (named_target name x (get_edge x g))) [
      | inl missed ↦
          let (i, d, at, m) = find_entry_sound name g eids {e = e} {t = t} (ground arith) in
          (i, d, at, ground arith)
      | inr (found, hit) ↦
          let (i, d, at, same) =
            named_target_sound name x (get_edge x g) {e = e} {t = t} (ground arith) in
          (i, d, ground arith, ground arith)
    ]

points_to-remove_edge :
    (e : EdgeId) (g : TypeGraph) → (remove_edge e g).1.inode_points_to ≡ g.inode_points_to
unfolding remove_edge
points_to-remove_edge e g = ground arith

module _ (g : TypeGraph) (h : WellFormed g) (dir : DirId) (name : String)
    (blocks : (i : InodeId) → AllOther (or_default [] (Map.get i g.inode_points_to)) g) where
  -- What the search of UNLINK finds.
  pub found_edge :
      (edge_ids : List EdgeId) (e : EdgeId) (t : InodeId)
      → Map.get dir g.dir_contains ≡ some edge_ids
      → find_entry name g edge_ids ≡ some (e, t)
      → (i : EdgeId) × (get_edge e g ≡ some (Edge.contains i dir t name))
        × (e < edge_capacity)
        × (entry e (index_of g) ≡ some (dir, t, name))
  unfolding entry get_edge
  found_edge edge_ids e t there hit =
      let (i, d, at, m) = find_entry_sound name g edge_ids hit in
      let low : e < edge_capacity = ground (arith, h.index.from_below dir e, h.index.bounded) in
      (i, ground (arith, h.index.from_exact dir e), low, ground (arith, h.index.from_exact dir e))

  module _ (e i : EdgeId) (t : InodeId) (inode : Inode) (plain : is_dot_name name ≡ false)
      (low : e < edge_capacity) (at : get_edge e g ≡ some (Edge.contains i dir t name))
      (here : entry e (index_of g) ≡ some (dir, t, name)) (there : get_inode t g ≡ some inode)
      (file : is_directory inode.vtype ≡ false) where
    -- The graph after the edge is taken out and the link count is lowered.
    abbrev pub cut : TypeGraph
    cut = adjust_inode t fewer_links (drop_incoming t e (drop_outgoing dir e (remove_edge e g).1))

    abbrev cut_nodes : Nodes
    cut_nodes = record (nodes_of g) {
      inodes = Arena.adjust (to_id t) fewer_links (nodes_of g).inodes;
    }

    pub index_of-cut : index_of cut ≡ cut_edge e dir t name (index_of g)
    unfolding adjust_inode
    index_of-cut = index_of-remove_edge e i dir t name g at

    nodes_of-cut : nodes_of cut ≡ cut_nodes
    unfolding adjust_inode drop_incoming drop_outgoing
    nodes_of-cut =
        ap (λ (n : Nodes). record n { inodes = Arena.adjust (to_id t) fewer_links n.inodes })
          (nodes_of-remove_edge e g)

    tlow : t < node_capacity
    tlow = (h.endpoints e dir t name low here).0

    lowered-WellFormed : IsWellFormed settled cut_nodes (cut_edge e dir t name (index_of g))
    unfolding links
    lowered-WellFormed =
        let h1 = cut_edge-WellFormed (index_of g) h e dir t name low here in
        let few =
          count-le (counted (cut_edge e dir t name (index_of g)))
            (cut_edge e dir t name (index_of g)).next_edge
            (edges_to t (cut_edge e dir t name (index_of g))) (h1.increasing t)
            (h1.index.to_below t) in
        adjust_inode-WellFormed (nodes_of g) _ h1 t fewer_links settled tlow (λ j ne. ground arith)
          (λ nd was. ground (arith, h1.link_counts t nd tlow was, h1.index.bounded)) (λ nd. refl)

    pub cut-WellFormed : WellFormed cut
    cut-WellFormed =
        subst₂ (IsWellFormed settled) (sym nodes_of-cut) (sym index_of-cut) lowered-WellFormed

    lowered : inode_at t (nodes_of cut) ≡ some (fewer_links inode)
    unfolding get_inode inode_at
    lowered =
        ap (inode_at t) nodes_of-cut
        ∙ ground (arith, inode_at-adjust (nodes_of g) _ h t fewer_links t tlow tlow, there)

    -- Nobody names an inode whose link count has come down to 0.
    unused :
        links_left (get_inode t cut) ≡ 0
        → (x : EdgeId) → x < edge_capacity
        → enters t (entry x (index_of cut)) ≡ false
    unfolding get_inode inode_at links
    unused zero_left x lt = elim (Option-cases (entry x (index_of cut))) [
      | inl nothing ↦ rw nothing
      | inr ((d, t', nm), at') ↦
          let w = cut-WellFormed in
          ground (
            arith,
            lowered,
            w.dotdots x d t nm (fewer_links inode) lt,
            w.link_counts t (fewer_links inode) tlow lowered,
            w.index.to_exact t x lt,
            count-pos (counted (index_of cut)) x (edges_to t (index_of cut)),
          )
    ]

    pub others_kept : AllOther (or_default [] (Map.get t cut.inode_points_to)) cut
    unfolding adjust_inode drop_incoming drop_outgoing
    others_kept x m =
        let (lt, none_there) = blocks t x (ground (arith, points_to-remove_edge e g)) in
        (
          lt,
          ap (entry x) index_of-cut
              ∙ ground (
                arith,
                entry-cut_edge e dir t name (index_of g) h.index low here x lt,
                none_there,
              ),
        )

    unlinked-WellFormed :
        WellFormed (if links_left (get_inode t cut) == 0 then collect_inode t cut else cut)
    unlinked-WellFormed = elim (Bool-cases (links_left (get_inode t cut) == 0)) [
      | inl gone ↦
          rw gone
            (collect_inode-WellFormed t cut cut-WellFormed tlow others_kept (unused (ground arith)))
      | inr stays ↦ rw stays cut-WellFormed
    ]

  pub found_ids :
      {found : EdgeId × InodeId}
      → (ok_or (Map.get dir g.dir_contains) (dir_not_found dir) >>? λ edge_ids.
          ok_or (find_entry name g edge_ids) (name_not_found name))
        ≡ ok found
      → (edge_ids : List EdgeId) × (Map.get dir g.dir_contains ≡ some edge_ids)
        × (find_entry name g edge_ids ≡ some found)
  found_ids h' =
      let (ids, hit, there) = first_ok _ _ _ h' in (ids, ok_or-ok _ _ there, ok_or-ok _ _ hit)

  -- UNLINK keeps a well-formed graph well-formed, whether it fails, leaves the inode with fewer
  -- links, or frees it, if the edges that `inode_points_to` lists are in range and none of them is
  -- a `Contains` edge.
  pub unlink-WellFormed : (fuel : ℕ) (clock : Clock) → WellFormed (unlink fuel clock dir name g).1
  unfolding unlink
  unlink-WellFormed fuel clock = check_rule WellFormed _ _ g h λ _ _.
      check_rule WellFormed _ _ g h λ _ plain. check_rule WellFormed _ _ g h λ found search_ok.
        check_rule WellFormed _ _ g h λ inode there. check_rule WellFormed _ _ g h λ _ file.
          let (ids, listed, hit) = found_ids search_ok in
          let (i, at, low, here) = found_edge ids found.0 found.1 listed hit in
          let w =
            unlinked-WellFormed found.0 i found.1 inode (fail_if-ok _ _ plain) low at here
              (ok_or-ok _ _ there) (fail_if-ok _ _ file) in
          modify_rule WellFormed _ _ _ (
            modify_rule WellFormed _ _ _ (
              modify_rule WellFormed _ _ _ (
                modify_rule WellFormed _ _ _ (
                  gets_rule WellFormed _ _ _ (
                    modify_rule WellFormed _ _ _ (
                      bind_rule WellFormed _ _ _
                        (when_rule WellFormed _ _ _ w
                          (λ _. update_quota-WellFormed (minus 1) (minus 0) fuel dir _ w))
                        (λ _ g' w'.
                          last_rule WellFormed _ _ (logged-WellFormed _ _ _ _ g' w'))))))))
