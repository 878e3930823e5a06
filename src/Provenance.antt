-- ===== src/Provenance.antt =====
-- sotfs-graph/src/provenance.rs: the append-only log and its queries.
use sotfs.Base.{
  ℕ, String, Bool, false, ◌&&◌, Option, none, some, List, [], ◌∷◌, ◌++◌, leb, ◌==◌, filter,
  if◌then◌else◌,
}
use sotfs.Types.{InodeId, CapId}

pub data ProvOp : Type 0 where
  create mkdir unlink rmdir link rename write chmod chown setxattr removexattr : ProvOp
  symlink set_acl cap_derive cap_revoke read stat open_ truncate : ProvOp

pub record ProvenanceEntry : Type 0 where
  pub timestamp : ℕ
  pub op : ProvOp
  pub inode_id : InodeId
  pub cap_id : Option CapId
  pub domain_id : ℕ
  pub detail : String

pub record ProvenanceLog : Type 0 where
  pub entries : List ProvenanceEntry

abbrev pub new_log : ProvenanceLog
new_log = record { entries = [] }

unfoldable pub push : ProvenanceEntry → ProvenanceLog → ProvenanceLog
push entry log = record { entries = log.entries ++ entry ∷ [] }

-- `record`
unfoldable pub record_entry :
    ℕ → ProvOp → InodeId → Option CapId → ℕ → String → ProvenanceLog → ProvenanceLog
record_entry timestamp op inode_id cap_id domain_id detail log = record {
  entries =
      log.entries
      ++ record {
        timestamp = timestamp;
        op = op;
        inode_id = inode_id;
        cap_id = cap_id;
        domain_id = domain_id;
        detail = detail;
      }
        ∷ [];
}

unfoldable pub drain : ProvenanceLog → List ProvenanceEntry × ProvenanceLog
drain log = (log.entries, new_log)

-- Both ends of a window belong to it.
abbrev pub in_window : ℕ → ℕ → ProvenanceEntry → Bool
in_window t_start t_end e = leb t_start e.timestamp && leb e.timestamp t_end

-- Q1, as a loop over the entries
caps_loop : InodeId → ℕ → ℕ → List ProvenanceEntry → List (CapId × ProvOp × ℕ)
caps_loop inode_id t_start t_end [] = []
caps_loop inode_id t_start t_end (e ∷ es) =
    let rest = caps_loop inode_id t_start t_end es in
    if e.inode_id == inode_id && in_window t_start t_end e
    then (elim e.cap_id [ none ↦ rest | some cid ↦ (cid, e.op, e.timestamp) ∷ rest ])
    else rest

unfoldable pub caps_for_inode_in_window :
    InodeId → ℕ → ℕ → ProvenanceLog → List (CapId × ProvOp × ℕ)
unfolding caps_loop
caps_for_inode_in_window inode_id t_start t_end log = caps_loop inode_id t_start t_end log.entries

abbrev pub is_cap : CapId → Option CapId → Bool
is_cap cap_id none = false
is_cap cap_id (some c) = c == cap_id

-- Q2
inodes_loop : CapId → ℕ → ℕ → List ProvenanceEntry → List (InodeId × ProvOp × ℕ)
inodes_loop cap_id t_start t_end [] = []
inodes_loop cap_id t_start t_end (e ∷ es) =
    let rest = inodes_loop cap_id t_start t_end es in
    if in_window t_start t_end e && is_cap cap_id e.cap_id
    then (e.inode_id, e.op, e.timestamp) ∷ rest
    else rest

unfoldable pub inodes_touched_by_cap : CapId → ℕ → ℕ → ProvenanceLog → List (InodeId × ProvOp × ℕ)
unfolding inodes_loop
inodes_touched_by_cap cap_id t_start t_end log = inodes_loop cap_id t_start t_end log.entries

-- Q3
unfoldable pub provenance_chain : InodeId → ProvenanceLog → List ProvenanceEntry
provenance_chain inode_id log = filter (λ e. e.inode_id == inode_id) log.entries

-- Q4
unfoldable pub ops_by_domain : ℕ → ℕ → ℕ → ProvenanceLog → List ProvenanceEntry
ops_by_domain domain_id t_start t_end log =
    filter (λ e. e.domain_id == domain_id && in_window t_start t_end e) log.entries
