-- ===== src/Tests/Sessions.antt =====
-- A concrete session: a directory is made, and then has its mode and its owner set.
use sotfs.Base.{arith, none, some, []}
use sotfs.Graph.{TypeGraph}
use sotfs.Graph.Links.Nodes.{WellFormed}
use sotfs.Ops.Action.{KeepsOnError}
use sotfs.Ops.Create.{create_file, mkdir}
use sotfs.Ops.Link.{link, unlink}
use sotfs.Ops.Rmdir.{rmdir}
use sotfs.Ops.Attr.{setacl}
use sotfs.Ops.Session.{
  make_dir, set_mode, set_owner, perform, Reachable, started, called, Reachable-WellFormed,
  errors_keep,
}
use sotfs.Tests.{clock, start, start_room, root_paired, with_file}

abbrev session : TypeGraph
session =
    perform 5 clock (set_owner 2 (some 1000) none)
      (perform 5 clock (set_mode 2 0o700) (perform 5 clock (make_dir 1 "d" 0 0 0o755) start))

session-Reachable : Reachable session
session-Reachable =
    called
      (called
        (called (started 7) 5 clock (make_dir 1 "d" 0 0 0o755)
          (start_room, omega arith, root_paired))
        5 clock (set_mode 2 0o700) tt)
      5 clock (set_owner 2 (some 1000) none) tt

session_example : WellFormed session
session_example = Reachable-WellFormed session session-Reachable

errors_example :
    KeepsOnError (create_file 5 clock 1 "a" 0 0 0o644) with_file
    × KeepsOnError (mkdir 5 clock 1 "a" 0 0 0o644) with_file
    × KeepsOnError (link clock 1 "a" 9) with_file
    × KeepsOnError (unlink 5 clock 1 "a") with_file
    × KeepsOnError (rmdir 5 clock 1 "a") with_file
    × KeepsOnError (setacl clock 9 []) with_file
errors_example = errors_keep 5 clock with_file 1 "a" 0 0 0o644 9 []
