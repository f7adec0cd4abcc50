-- ===== src/Ipc/Tests.antt =====
-- Runs of the calls of kernel/src/ipc/mod.rs.
use oscortex.Base.{◌≡◌, List, [], ◌∷◌}
use oscortex.Ipc.{init, Call, sends, recvs, run}
use oscortex.Ipc.Mailbox
use oscortex.Ipc.Refine.{view, init-IsValid, run_refines}

abbrev script : List Call
script =
    sends 3 (10 ∷ 20 ∷ [])
    ∷ sends 3 (30 ∷ [])
    ∷ recvs 3
    ∷ recvs 4
    ∷ recvs 3
    ∷ recvs 3
    ∷ recvs 300
    ∷ []

run_refines_example : run init script ≡ Mailbox.run (view init) script
run_refines_example = run_refines script init init-IsValid
