-- ===== src/Engine/Examples.antt =====
-- Sessions over a catalog that is the list of the statements it has run.
use Prim.Native.String.{String}
use text.Mathlib.Text.{◌==◌ as str_eq}
use tensorvault.Prelude.{
  ◌≡◌, refl, Bool, true, if◌then◌else◌, Option, none, some, List, [], ◌∷◌, arith,
}
use tensorvault.Storage.Recovery.{PhysicalChange}
use tensorvault.Engine.Session.{
  Command, begin, commit, rollback, statement, savepoint, rollback_to, release, run, new_engine,
}
use tensorvault.Engine.Replay.{replay_wal}
use tensorvault.Engine.Replay.Sessions.{session_replays}
use tensorvault.Engine.Replay.Reuse.{rolled_back_is_replayed, undone_is_replayed}

abbrev Trace : Type 0
Trace = List String

abbrev same_trace : Trace → Trace
same_trace c = c

-- The empty text and "bad" fail.
abbrev run_text : String → Trace → Option Trace
run_text sql c = if str_eq sql "" then none else if str_eq sql "bad" then none else some (sql ∷ c)

abbrev no_change : PhysicalChange → Trace → Option Trace
no_change p c = none

abbrev commands : List Command
commands =
    statement "create"
    ∷ begin
    ∷ statement "insert"
    ∷ savepoint "s"
    ∷ statement "bad"
    ∷ release "s"
    ∷ commit
    ∷ begin
    ∷ statement "delete"
    ∷ rollback
    ∷ begin
    ∷ statement "update"
    ∷ []

abbrev two_writes : List Bool
two_writes = true ∷ true ∷ []

session_replays_example :
    replay_wal run_text no_change
      (run same_trace run_text commands (new_engine [] [] two_writes)).wal
      []
    ≡ some (run same_trace run_text commands (new_engine [] [] two_writes)).catalog
session_replays_example =
    session_replays same_trace run_text no_change [] (λ c. refl) (λ c. refl) commands two_writes
      (refl, (refl, tt)) (tt, (tt, (tt, (tt, (tt, (tt, (tt, (tt, (tt, (tt, (tt, (tt, tt))))))))))))
      (omega arith)

abbrev first_session : Trace
first_session = "insert" ∷ []

rolled_back_is_replayed_example :
    let first =
      run same_trace run_text (begin ∷ statement "insert" ∷ commit ∷ []) (new_engine [] [] []) in
    let second =
      run same_trace run_text
        (begin ∷ statement "delete" ∷ rollback ∷ [])
        (new_engine first.catalog first.wal []) in
    (second.catalog ≡ first_session)
    × (replay_wal run_text no_change second.wal [] ≡ some ("delete" ∷ first_session))
rolled_back_is_replayed_example =
    rolled_back_is_replayed same_trace run_text no_change "insert" "delete" [] first_session
      ("delete" ∷ first_session) (λ c. refl) (λ c. refl) refl refl

undone_is_replayed_example :
    let done =
      run same_trace run_text
        (begin ∷ savepoint "s" ∷ statement "insert" ∷ rollback_to "s" ∷ commit ∷ [])
        (new_engine [] [] []) in
    (done.catalog ≡ []) × (replay_wal run_text no_change done.wal [] ≡ some first_session)
undone_is_replayed_example =
    undone_is_replayed same_trace run_text no_change "s" "insert" [] first_session (λ c. refl)
      (λ c. refl) refl
