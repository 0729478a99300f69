-- ===== src/Prefork/Forking.antt =====
-- How `main` and `child_make` of 30chp/serv03.c start the children.
use unpvol.Common.{ℕ, ◌≡◌, refl, ap, List, [], ◌∷◌, ◌++◌, map}

-- What `fork` returns: in the parent, in the child, or -1.
pub data Fork : Type 0 where
  parent : ℕ → Fork
  child : Fork
  fork_failed : Fork

-- `child_make` returns the pid, or goes on into `child_main`, which never returns.
pub data Made : Type 0 where
  pid : ℕ → Made
  in_child_main : Made

unfoldable pub child_make : Fork → Made
child_make (parent p) = pid p
child_make child = in_child_main
child_make fork_failed = in_child_main

-- The process is past the loop, with all pids, and then pauses until SIGINT; or it is inside
-- `child_main`, with the pids of the children made before.
pub data Role : Type 0 where
  pauses : List ℕ → Role
  serves : List ℕ → Role

unfoldable pub recorded : Made → Role → Role
recorded (pid p) (pauses ps) = pauses (p ∷ ps)
recorded (pid p) (serves ps) = serves (p ∷ ps)
recorded in_child_main rest = serves []

-- `for (i = 0; i < nchildren; i++)`, with the answer to each `fork`.
unfoldable pub make_children : List Fork → Role
make_children [] = pauses []
make_children (f ∷ rest) = recorded (child_make f) (make_children rest)

-- If every `fork` succeeds, the parent has the pids of all children, in order, and waits for
-- SIGINT. If one fails after some have succeeded, the parent itself goes on into `child_main`,
-- exactly as a child that is forked there does.
pub make_children_lem :
    (ps : List ℕ) (rest : List Fork)
    → (make_children (map parent ps) ≡ pauses ps)
      × (make_children (map parent ps ++ child ∷ rest) ≡ serves ps)
      × (make_children (map parent ps ++ fork_failed ∷ rest) ≡ serves ps)
unfolding make_children child_make recorded
make_children_lem [] rest = (refl, refl, refl)
make_children_lem (p ∷ ps) rest =
    let (e, f, g) = make_children_lem ps rest in
    (ap (recorded (pid p)) e, ap (recorded (pid p)) f, ap (recorded (pid p)) g)
