-- ===== src/Error.antt =====
-- sotfs-graph/src/error.rs: `GraphError`, and results that carry it. A message that the source
-- formats is the data that it formats.
use sotfs.Base.{ℕ, String, Bool, true, false, Option, none, some, List, [], ◌∷◌, ◌≡◌, refl}
use sotfs.Types.{InodeId, DirId, CapId, BlockId, EdgeId, Rights}

-- The texts that `InvariantViolation` carries, one for each place that builds one.
pub data Violation : Type 0 where
  link_count : InodeId → ℕ → ℕ → Violation
  duplicate_name : DirId → String → Violation
  missing_dot : DirId → Violation
  dangling_edge : EdgeId → Bool → Bool → Violation
  refcount : BlockId → ℕ → ℕ → Violation
  dir_cycle : DirId → Violation
  cap_not_subset : CapId → Rights → CapId → Rights → Violation
  hard_linked_dir : InodeId → ℕ → Violation
  wrong_src : EdgeId → DirId → DirId → Violation
  wrong_index : DirId → String → EdgeId → EdgeId → Violation
  missing_index : DirId → String → EdgeId → Violation
  stale_index : DirId → String → EdgeId → Violation
  index_to_other : EdgeId → Violation
  index_to_missing : EdgeId → Violation
  commit_inactive : Violation

-- The resource that a `QuotaExceeded` names: "inode" or "bytes".
pub data Resource : Type 0 where
  inode bytes : Resource

pub data GraphError : Type 0 where
  inode_not_found : InodeId → GraphError
  dir_not_found : DirId → GraphError
  cap_not_found : CapId → GraphError
  block_not_found : BlockId → GraphError
  edge_not_found : EdgeId → GraphError
  name_exists : DirId → String → GraphError
  dir_not_empty : DirId → GraphError
  link_to_directory : InodeId → GraphError
  link_count_exceeded : ℕ → GraphError
  would_create_cycle : GraphError
  name_not_found : String → GraphError
  not_a_directory : InodeId → GraphError
  not_a_file : InodeId → GraphError
  out_of_ids : GraphError
  xattr_not_found : String → GraphError
  xattr_exists : String → GraphError
  xattr_too_large : ℕ → GraphError
  not_a_symlink : InodeId → GraphError
  symlink_loop : GraphError
  quota_exceeded : DirId → Resource → GraphError
  cap_insufficient_rights : ℕ → ℕ → GraphError
  invariant_violation : Violation → GraphError

-- `Result<A, GraphError>`. `diverge` is a run that returns nothing: it has used up the fuel of a
-- loop that the source does not bound, or it panics.
pub data Result {ℓ} (A : Type ℓ) : Type ℓ where
  ok : A → Result A
  err : GraphError → Result A
  diverge : Result A

infixl 5 ◌>>=◌ ◌>>◌
-- `m?`, with what follows it
abbrev pub ◌>>=◌ {ℓ κ} : {A : Type ℓ} {B : Type κ} → Result A → (A → Result B) → Result B
diverge >>= next = diverge
err e >>= next = err e
ok value >>= next = next value

abbrev pub ◌>>◌ {κ} : {B : Type κ} → Result (Unit {0}) → Result B → Result B
check >> next = check >>= λ done. next

-- `if b { return Err(e) }`
abbrev pub fail_if : Bool → GraphError → Result (Unit {0})
fail_if true e = err e
fail_if false e = ok tt

abbrev pub ok_or {ℓ} : {A : Type ℓ} → Option A → GraphError → Result A
ok_or none e = err e
ok_or (some a) e = ok a

-- What a block that succeeds says of its first step.
pub first_ok {ℓ κ} :
    {A : Type ℓ} {B : Type κ} (next : A → Result B) (b : B) (m : Result A)
    → (m >>= next) ≡ ok b
    → (a : A) × (next a ≡ ok b) × (m ≡ ok a)
first_ok next b diverge h = absurd (cc)
first_ok next b (err e) h = absurd (cc)
first_ok next b (ok a) h = (a, h, refl)

-- `for x in xs { f(x)?; }`
unfoldable pub each {ℓ} : {A : Type ℓ} → (A → Result (Unit {0})) → List A → Result (Unit {0})
each f [] = ok tt
each f (x ∷ xs) = f x >> each f xs
