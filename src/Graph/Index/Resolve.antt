-- ===== src/Graph/Index/Resolve.antt =====
-- graph.rs, `lookup_name`: the name index against the linear scan that it replaces.
use sotfs.Base.{
  ◌<◌, String, true, Option, none, some, List, [], ◌∷◌, ◌≡◌, refl, ap, ◌∙◌, arith, eq_iff,
  Option-cases, inl, inr, if◌then◌else◌,
}
use mathlib.Core.Option
use sotfs.Map
use sotfs.Map.{Map, or_default, id_key, entry_key}
use sotfs.Map.Sets
use sotfs.Types.{Edge, EdgeId, DirId, InodeId}
use sotfs.Graph.{TypeGraph, edge_capacity, get_edge}
use sotfs.Graph.Names.{is_named, scan_names, lookup_name, resolve_name, target_of}
use sotfs.Graph.Index.{Index, index_of, entry, entry_of, edges_from, leaves, IsIndexed}

-- What the index says that a name means.
unfoldable pub meaning : DirId → String → Index → Option InodeId
unfolding Option.bind
meaning dir name s =
    Option.bind (Map.get (dir, name) s.names)
      (λ e. Option.map (λ (x : DirId × InodeId × String). x.1) (entry e s))

named_entry :
    (dir : DirId) (name : String) (o : Option Edge)
    → leaves dir (entry_of o) ≡ true
    → is_named name o ≡ true
    → (t : InodeId) × (entry_of o ≡ some (dir, t, name))
named_entry dir name (some (Edge.contains i s t n)) from named = (t, ground (arith, eq_iff n name))
named_entry dir name none from named = absurd (cc)
named_entry dir name (some _) from named = absurd (cc)

module _ (g : TypeGraph) (h : IsIndexed (index_of g)) (dir : DirId) (name : String) where
  abbrev AllFrom : List EdgeId → Type 0
  AllFrom eids =
      (e : EdgeId)
      → Sets.contains e eids ≡ true
      → (e < edge_capacity) × (leaves dir (entry e (index_of g)) ≡ true)

  tail_from : (x : EdgeId) (eids : List EdgeId) → AllFrom (x ∷ eids) → AllFrom eids
  unfolding Sets.contains
  tail_from x eids all e m = all e (ground arith)

  is_named-entry :
      (e : EdgeId)
      → e < edge_capacity
      → leaves dir (entry e (index_of g)) ≡ true
      → is_named name (get_edge e g) ≡ true
      → Map.get (dir, name) g.dir_name_idx ≡ some e
  unfolding entry get_edge
  is_named-entry e lt from named =
      let (t, at) = named_entry dir name (get_edge e g) from named in h.complete dir t name e lt at

  entry_named :
      (t : InodeId) (k : EdgeId)
      → entry k (index_of g) ≡ some (dir, t, name)
      → is_named name (get_edge k g) ≡ true
  unfolding entry get_edge
  entry_named t k here = ground (arith, eq_iff name name)

  scan-none :
      Map.get (dir, name) g.dir_name_idx ≡ none
      → (eids : List EdgeId) → AllFrom eids
      → scan_names name g eids ≡ none
  unfolding scan_names Sets.contains
  scan-none free [] all = refl
  scan-none free (x ∷ eids) all =
      ground (arith, scan-none free eids (tail_from x eids all), is_named-entry x, all x)

  scan-some :
      (k : EdgeId)
      → Map.get (dir, name) g.dir_name_idx ≡ some k
      → is_named name (get_edge k g) ≡ true
      → (eids : List EdgeId) → AllFrom eids
      → scan_names name g eids ≡ (if Sets.contains k eids then get_edge k g else none)
  unfolding scan_names Sets.contains
  scan-some k at named [] all = refl
  scan-some k at named (x ∷ eids) all =
      ground (arith, scan-some k at named eids (tail_from x eids all), is_named-entry x, all x)

  edges_from-AllFrom : AllFrom (edges_from dir (index_of g))
  edges_from-AllFrom e m = ground (arith, h.from_below dir e, h.bounded, h.from_exact dir e)

  -- In a graph whose indexes are exact, the linear scan of the directory finds the edge that the
  -- name index holds, and none where it holds none.
  pub scan-lookup :
      scan_names name g (edges_from dir (index_of g))
      ≡ Option.bind (Map.get (dir, name) g.dir_name_idx) (λ e. get_edge e g)
  unfolding Option.bind
  scan-lookup = elim (Option-cases (Map.get (dir, name) g.dir_name_idx)) [
    | inl free ↦ rw (free, scan-none free _ edges_from-AllFrom)
    | inr (k, at) ↦
        let (t, below, here) = h.sound dir name k at in
        rw (at, scan-some k at (entry_named t k here) _ edges_from-AllFrom)
          (ground (arith, h.from_exact dir k, h.bounded))
  ]

  -- `lookup_name` answers by the index, on its hot and on its cold path.
  pub lookup_name-index :
      lookup_name dir name g ≡ Option.bind (Map.get (dir, name) g.dir_name_idx) (λ e. get_edge e g)
  unfolding lookup_name
  lookup_name-index = ground (arith, scan-lookup)

  resolve_name-lookup_name :
      resolve_name dir name g ≡ Option.bind (lookup_name dir name g) target_of
  unfolding resolve_name
  resolve_name-lookup_name = refl

  target-entry :
      Option.bind (Option.bind (Map.get (dir, name) g.dir_name_idx) (λ e. get_edge e g)) target_of
      ≡ meaning dir name (index_of g)
  unfolding meaning entry get_edge Option.bind
  target-entry = ground arith

  pub resolve_name-meaning : resolve_name dir name g ≡ meaning dir name (index_of g)
  resolve_name-meaning =
      resolve_name-lookup_name
      ∙ (ap (λ o. Option.bind o target_of) lookup_name-index ∙ target-entry)
