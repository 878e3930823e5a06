-- ===== src/Graph/Prov.antt =====
-- graph.rs: the provenance log that the graph holds, the capability context and the admission of
-- mutating operations. `now` is the reading of the clock.
use sotfs.Base.{ℕ, String, Option, none, some, not}
use sotfs.Types.{InodeId, CapId, CapContext, Timestamp, rights_contain, anonymous}
use sotfs.Error.{Result, ok, cap_not_found, cap_insufficient_rights, ◌>>=◌, ok_or, fail_if}
use sotfs.Provenance.{ProvOp, ProvenanceLog, new_log, record_entry}
use mathlib.Core.Option
use sotfs.Graph.{TypeGraph, get_cap}

unfoldable pub enable_prov_log : TypeGraph → TypeGraph
enable_prov_log g = record g { prov_log = some new_log }

unfoldable pub disable_prov_log : TypeGraph → TypeGraph
disable_prov_log g = record g { prov_log = none }

unfoldable pub take_prov_log : TypeGraph → Option ProvenanceLog × TypeGraph
take_prov_log g = (g.prov_log, record g { prov_log = none })

unfoldable pub record_prov_full :
    Timestamp → ProvOp → InodeId → Option CapId → ℕ → String → TypeGraph → TypeGraph
record_prov_full now op inode_id cap_id domain_id detail g = record g {
  prov_log = Option.map (record_entry now op inode_id cap_id domain_id detail) g.prov_log;
}

-- As above, with the attribution of the active context.
unfoldable pub record_prov : Timestamp → ProvOp → InodeId → String → TypeGraph → TypeGraph
record_prov now op inode_id detail g =
    let ctx = g.cap_ctx in
    record g {
      prov_log =
          Option.map (record_entry now op inode_id ctx.cap_id ctx.domain_id detail) g.prov_log;
    }

unfoldable pub set_cap_ctx : CapContext → TypeGraph → TypeGraph
set_cap_ctx ctx g = record g { cap_ctx = ctx }

unfoldable pub clear_cap_ctx : TypeGraph → TypeGraph
clear_cap_ctx g = record g { cap_ctx = anonymous }

check_cap : ℕ → Option CapId → TypeGraph → Result (Unit {0})
check_cap needed none g = ok tt
check_cap needed (some id) g = do
  cap ← ok_or (get_cap id g) (cap_not_found id)
  fail_if (not (rights_contain cap.rights needed)) (cap_insufficient_rights needed cap.rights)

unfoldable pub require_cap : ℕ → TypeGraph → Result (Unit {0})
unfolding check_cap
require_cap needed g = check_cap needed g.cap_ctx.cap_id g
