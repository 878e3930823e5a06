-- ===== src/Ops/Atomic.antt =====
-- sotfs-ops/src/lib.rs: what CREATE, MKDIR, LINK, UNLINK and the setting of an access control list
-- leave behind where they return an error.
use sotfs.Base.{ℕ, String, Option, none, some, List, ◌≢◌}
use sotfs.Types.{InodeId, DirId, Permissions, AclEntry}
use sotfs.Error.{GraphError, err}
use sotfs.Graph.{TypeGraph}
use sotfs.Ops.Action.{Clock, KeepsOnError, modify, pure, ◌>>◌}
use sotfs.Ops.Action.Errors.{
  HasNoError, check_keeps, no_error_keeps, bind_no_error, after_step, after_gets, after_modify,
  modify_no_error, pure_no_error, when_no_error,
}
use sotfs.Ops.Quota.{Delta, plus, minus, update_quota, update_walk, finish}
use sotfs.Ops.Create.{create_file, mkdir}
use sotfs.Ops.Link.{link, unlink}
use sotfs.Ops.Attr.{setacl}

finish_no_error : (o : Option TypeGraph) (g : TypeGraph) (e : GraphError) → (finish o g).0 ≢ err e
finish_no_error none g e h = cc
finish_no_error (some g') g e h = cc

pub update_no_error :
    (fuel : ℕ) (d : DirId) (inodes bytes : Delta) → HasNoError (update_quota fuel d inodes bytes)
unfolding update_quota
update_no_error fuel d inodes bytes = record {
  never = λ g. finish_no_error (update_walk fuel inodes bytes (some d) g) g;
}

-- The last steps of the three operations that create.
charged_no_error :
    {A : Type 0} (fuel : ℕ) (d : DirId) (f : TypeGraph → TypeGraph) (a : A)
    → HasNoError (update_quota fuel d (plus 1) (minus 0) >> (modify f >> pure a))
charged_no_error fuel d f a =
    bind_no_error (update_quota fuel d (plus 1) (minus 0)) (λ _. modify f >> pure a)
      (update_no_error fuel d (plus 1) (minus 0)) (λ _. after_modify f (pure a) (pure_no_error a))

-- CREATE either succeeds or leaves the graph as it was: where it returns an error, whatever the
-- graph and the arguments, nothing has changed.
pub create_file-KeepsOnError :
    (fuel : ℕ) (clock : Clock) (dir : DirId) (name : String) (uid gid : ℕ)
    (permissions : Permissions) (g : TypeGraph)
    → KeepsOnError (create_file fuel clock dir name uid gid permissions) g
unfolding create_file
create_file-KeepsOnError fuel clock dir name uid gid permissions g = check_keeps _ _ g λ _.
    check_keeps _ _ g λ _. check_keeps _ _ g λ _. check_keeps _ _ g λ _. check_keeps _ _ g λ _.
      no_error_keeps _ g (
        after_step _ _ λ _.
          after_step _ _ λ _. after_modify _ _ (after_modify _ _ (charged_no_error fuel dir _ _)))

-- MKDIR either succeeds or leaves the graph as it was, whatever the graph and the arguments.
pub mkdir-KeepsOnError :
    (fuel : ℕ) (clock : Clock) (dir : DirId) (name : String) (uid gid : ℕ)
    (permissions : Permissions) (g : TypeGraph)
    → KeepsOnError (mkdir fuel clock dir name uid gid permissions) g
unfolding mkdir
mkdir-KeepsOnError fuel clock dir name uid gid permissions g = check_keeps _ _ g λ _.
    check_keeps _ _ g λ _. check_keeps _ _ g λ _. check_keeps _ _ g λ _. check_keeps _ _ g λ _.
      no_error_keeps _ g (
        after_step _ _ λ _. after_step _ _ λ _. after_step _ _ λ _. after_step _ _ λ _.
          after_step _ _ λ _. after_modify _ _ (
            after_modify _ _ (
              after_modify _ _
                (after_modify _ _ (after_modify _ _ (charged_no_error fuel dir _ _))))))

-- LINK either succeeds or leaves the graph as it was, whatever the graph and the arguments.
pub link-KeepsOnError :
    (clock : Clock) (dir : DirId) (name : String) (target : InodeId) (g : TypeGraph)
    → KeepsOnError (link clock dir name target) g
unfolding link
link-KeepsOnError clock dir name target g = check_keeps _ _ g λ _. check_keeps _ _ g λ _.
    check_keeps _ _ g λ _. check_keeps _ _ g λ _. check_keeps _ _ g λ _. check_keeps _ _ g λ _.
      no_error_keeps _ g
        (after_step _ _ λ _. after_modify _ _ (after_modify _ _ (modify_no_error _)))

-- UNLINK either succeeds or leaves the graph as it was, whatever the graph and the arguments.
pub unlink-KeepsOnError :
    (fuel : ℕ) (clock : Clock) (dir : DirId) (name : String) (g : TypeGraph)
    → KeepsOnError (unlink fuel clock dir name) g
unfolding unlink
unlink-KeepsOnError fuel clock dir name g = check_keeps _ _ g λ _. check_keeps _ _ g λ _.
    check_keeps _ _ g λ _. check_keeps _ _ g λ _. check_keeps _ _ g λ _. no_error_keeps _ g (
      after_modify _ _ (
        after_modify _ _ (
          after_modify _ _ (
            after_modify _ _ (
              after_gets _ _ λ _. after_modify _ _ (
                bind_no_error _ _ (when_no_error _ _ (update_no_error fuel dir (minus 1) (minus 0)))
                  (λ _. modify_no_error _)))))))

-- Setting an access control list either succeeds or leaves the graph as it was, whatever the graph
-- and the arguments.
pub setacl-KeepsOnError :
    (clock : Clock) (inode_id : InodeId) (entries : List AclEntry) (g : TypeGraph)
    → KeepsOnError (setacl clock inode_id entries) g
unfolding setacl
setacl-KeepsOnError clock inode_id entries g = check_keeps _ _ g λ _. check_keeps _ _ g λ _.
    no_error_keeps _ g (after_modify _ _ (after_modify _ _ (after_modify _ _ (modify_no_error _))))
