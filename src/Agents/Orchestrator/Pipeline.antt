-- ===== src/Agents/Orchestrator/Pipeline.antt =====
-- `executeTask` of src/agents/orchestrator/agent-orchestrator.service.ts, from step to step.
use bolder_vibes_backend.Common.{
  ℕ, String, Bool, none, some, List, [], ◌∷◌, map, length, if◌then◌else◌, Result, ok, err, ltb,
}
use bolder_vibes_backend.Files.Tables.{FileTables}
use bolder_vibes_backend.Agents.Orchestrator.{
  TaskStatus, pending, planning, developing, refactoring, completed, failed, cancelled,
  step_pending, step_running, step_completed, step_skipped, AgentType, planner, developer, refactor,
  Step, AgentOutput, task_started, step_started, step_finished, task_completed, task_failed,
  TaskState, PipelineError, agent_failed, files_failed, message_failed, PipelineResult, Environment,
  FileChange, text_or, apply_file_changes, sync_all, FilesState,
}

abbrev pub skip_open : Step → Step
skip_open step = elim step.status [
  | step_pending ↦ record step { status = step_skipped }
  | step_running ↦ record step { status = step_skipped }
  | _ ↦ step
]

-- `agentStep.update` of the step that was created last.
abbrev pub complete_last : List Step → List Step
complete_last [] = []
complete_last (step ∷ steps) = record step { status = step_completed } ∷ steps

-- `refactorOutput.changes.length > 0 ? refactorOutput.changes : devOutput.changes`.
abbrev pub final_changes : AgentOutput → AgentOutput → List FileChange
final_changes reviewed written =
    if ltb 0 (length reviewed.changes) then reviewed.changes else written.changes

-- The step that the versions name: the refactor's, or the developer's.
abbrev pub applied_step : AgentOutput → ℕ
applied_step reviewed = if ltb 0 (length reviewed.changes) then 3 else 2

abbrev pub summary_of : AgentOutput → AgentOutput → String
summary_of reviewed written = text_or reviewed.summary (text_or written.summary "Changes applied.")

module _ {Db : Type 0} where
  abbrev pub set_status : TaskStatus → TaskState Db → TaskState Db
  set_status status s = record s { status = status }

  -- The status of the task, a running step, and its event.
  abbrev pub start_step : TaskStatus → AgentType → ℕ → TaskState Db → TaskState Db
  start_step status agent order s = record s {
    status = status;
    steps = record { agent_type = agent; step_order = order; status = step_running } ∷ s.steps;
    events = step_started order ∷ s.events;
  }

  abbrev pub finish_step : ℕ → TaskState Db → TaskState Db
  finish_step order s = record s {
    steps = complete_last s.steps;
    events = step_finished order ∷ s.events;
  }

  -- `cancelTask`.
  unfoldable pub cancel_task : TaskState Db → PipelineResult × TaskState Db
  cancel_task s = (
    record { status = cancelled; files_changed = 0 },
    record s { status = cancelled; steps = map skip_open s.steps },
  )

  module _ (t : FileTables Db) (compute_diff : String → String → String → String)
      (number_text : ℕ → String) (project_id : ℕ) {Plan : Type 0} (env : Environment Plan) where
    -- The message to the conversation, and the result.
    unfoldable pub report :
        ℕ → String → TaskState Db → Result PipelineError PipelineResult × TaskState Db
    report n summary s =
        if env.has_conversation
        then if env.message_succeeds
          then (
            ok (record { status = completed; files_changed = n }),
            record s { messages = summary ∷ s.messages },
          )
          else (err message_failed, s)
        else (ok (record { status = completed; files_changed = n }), s)

    -- Once the changes are handed to the preview, the task is completed.
    unfoldable pub complete_stage :
        List FileChange
        → String
        → Result PipelineError (Unit {0})
        → FilesState Db
        → TaskState Db
        → Result PipelineError PipelineResult × TaskState Db
    complete_stage changes summary (err e) files s = (err e, record s { files = files })
    complete_stage changes summary (ok u) files s = report (length changes) summary (record s {
      status = completed;
      events = task_completed (length changes) ∷ s.events;
      files = files;
    })

    -- The changes are applied, and handed to the preview.
    unfoldable pub apply_stage :
        AgentOutput
        → AgentOutput
        → TaskState Db
        → Result PipelineError PipelineResult × TaskState Db
    apply_stage reviewed written s =
        let changes = final_changes reviewed written in
        let (r, files) =
          apply_file_changes t compute_diff number_text project_id changes (applied_step reviewed)
            s.files in
        elim r [
          | err e ↦ (err (files_failed e), record s { files = files })
          | ok u ↦
              let (synced, files') =
                sync_all t compute_diff number_text project_id env.sync_returns changes files in
              complete_stage changes (summary_of reviewed written) synced files' s
        ]

    unfoldable pub refactor_stage :
        Plan → AgentOutput → TaskState Db → Result PipelineError PipelineResult × TaskState Db
    refactor_stage plan written s =
        let s' = start_step refactoring refactor 3 s in
        elim (env.review plan written) [
          | none ↦ (err (agent_failed refactor), s')
          | some reviewed ↦ apply_stage reviewed written (finish_step 3 s')
        ]

    -- A cancellation that is seen ends the task in the `try`.
    abbrev pub unless_cancelled :
        Bool
        → (TaskState Db → Result PipelineError PipelineResult × TaskState Db)
        → TaskState Db
        → Result PipelineError PipelineResult × TaskState Db
    unless_cancelled seen k s =
        if seen then (let (result, s') = cancel_task s in (ok result, s')) else k s

    unfoldable pub develop_stage :
        Plan → TaskState Db → Result PipelineError PipelineResult × TaskState Db
    develop_stage plan s =
        let s' = start_step developing developer 2 s in
        elim (env.generate_code plan) [
          | none ↦ (err (agent_failed developer), s')
          | some written ↦
              unless_cancelled env.cancelled_after_code (refactor_stage plan written)
                (finish_step 2 s')
        ]

    unfoldable pub plan_stage : TaskState Db → Result PipelineError PipelineResult × TaskState Db
    plan_stage s =
        let s' = start_step planning planner 1 s in
        elim env.create_plan [
          | none ↦ (err (agent_failed planner), s')
          | some plan ↦
              unless_cancelled env.cancelled_after_plan (develop_stage plan) (finish_step 1 s')
        ]

    -- The `catch` of the pipeline: the task fails, whatever it was before.
    abbrev pub settle :
        Result PipelineError PipelineResult × TaskState Db → PipelineResult × TaskState Db
    settle (ok result, s) = (result, s)
    settle (err e, s) = (
      record { status = failed; files_changed = 0 },
      record s { status = failed; events = task_failed ∷ s.events },
    )

    -- `executeTask`, from the row that it creates.
    unfoldable pub execute_task : FilesState Db → PipelineResult × TaskState Db
    execute_task files = settle (
        unless_cancelled env.cancelled_at_first plan_stage (record {
          status = pending;
          steps = [];
          events = task_started ∷ [];
          messages = [];
          files = files;
        }))
