-- ===== src/Agents/Orchestrator/Outcome.antt =====
-- How a task of src/agents/orchestrator/agent-orchestrator.service.ts ends.
use bolder_vibes_backend.Common.{
  refl, if◌then◌else◌, err, List, [], ◌∷◌, ℕ, String, ◌≡◌, ◌↔◌, inl, inr, Bool, true, false, not,
  ◌&&◌, none, some, any, arith, Result, ok, Option-cases, Result-cases, all, Bool-cases,
}
use bolder_vibes_backend.Files.Tables.{FileTables}
use bolder_vibes_backend.Files.Service.{FilesState, FilesError}
use bolder_vibes_backend.Agents.Orchestrator.{
  completed, failed, cancelled, step_pending, step_running, Step, AgentOutput, TaskEvent,
  task_completed, TaskState, PipelineResult, Environment, apply_file_changes, sync_all, FileChange,
  List, sync_failed, ◌∷◌,
}
use bolder_vibes_backend.Agents.Orchestrator.Pipeline.{
  cancel_task, report, apply_stage, refactor_stage, develop_stage, plan_stage, execute_task,
  final_changes, applied_step, complete_stage,
}

abbrev pub is_open : Step → Bool
is_open step = elim step.status [ step_pending ↦ true | step_running ↦ true | _ ↦ false ]

abbrev pub is_task_completed : TaskEvent → Bool
is_task_completed (task_completed n) = true
is_task_completed TaskEvent.task_started = false
is_task_completed (TaskEvent.step_started n) = false
is_task_completed (TaskEvent.step_finished n) = false
is_task_completed TaskEvent.task_failed = false

-- The agent that is reached without a cancellation and does not answer.
pub data AgentFails {Plan : Type 0} (env : Environment Plan) : Type 0 where
  planner_fails : env.cancelled_at_first ≡ false → env.create_plan ≡ none → AgentFails env
  developer_fails :
      (plan : Plan)
      → env.cancelled_at_first ≡ false
      → env.create_plan ≡ some plan
      → env.cancelled_after_plan ≡ false
      → env.generate_code plan ≡ none
      → AgentFails env
  refactor_fails :
      (plan : Plan) (written : AgentOutput)
      → env.cancelled_at_first ≡ false
      → env.create_plan ≡ some plan
      → env.cancelled_after_plan ≡ false
      → env.generate_code plan ≡ some written
      → env.cancelled_after_code ≡ false
      → env.review plan written ≡ none
      → AgentFails env

-- No cancellation is seen and each agent answers.
pub record Answers {Plan : Type 0} (env : Environment Plan) : Type 0 where
  pub plan : Plan
  pub written : AgentOutput
  pub reviewed : AgentOutput
  pub uncancelled :
      (env.cancelled_at_first ≡ false)
      × (env.cancelled_after_plan ≡ false)
      × (env.cancelled_after_code ≡ false)
  pub planned : env.create_plan ≡ some plan
  pub coded : env.generate_code plan ≡ some written
  pub checked : env.review plan written ≡ some reviewed

module _ {Db : Type 0} (t : FileTables Db) (compute_diff : String → String → String → String)
    (number_text : ℕ → String) (project_id : ℕ) {Plan : Type 0} (env : Environment Plan) where
  abbrev task : FilesState Db → PipelineResult × TaskState Db
  task files = execute_task t compute_diff number_text project_id env files

  -- The changes of a task whose agents have answered.
  abbrev pub applied : Answers env → FilesState Db → Result FilesError (Unit {0}) × FilesState Db
  applied a files =
      apply_file_changes t compute_diff number_text project_id (final_changes a.reviewed a.written)
        (applied_step a.reviewed) files

  -- A task whose planner, developer or refactor agent fails is failed and no file is touched, but the
  -- step of that agent is still marked as running.
  failing_agent_lem :
      (files : FilesState Db)
      → AgentFails env
      → let (result, s) = execute_task t compute_diff number_text project_id env files in
        (result.status ≡ failed)
        × (s.status ≡ failed)
        × (s.files ≡ files)
        × (any is_open s.steps ≡ true)
  unfolding execute_task plan_stage develop_stage refactor_stage
  failing_agent_lem files (planner_fails a b) = ground arith
  failing_agent_lem files (developer_fails plan a b c d) = ground arith
  failing_agent_lem files (refactor_fails plan written a b c d e f) = ground arith

  -- If a cancellation is seen at one of the three places where the task asks for it, the task ends as
  -- cancelled, no file is touched, and no step is left open.
  pub cancelled_task_lem :
      (files : FilesState Db)
      → (execute_task t compute_diff number_text project_id env files).0.status ≡ cancelled
      → let s = (execute_task t compute_diff number_text project_id env files).1 in
        (s.status ≡ cancelled) × (s.files ≡ files) × (any is_open s.steps ≡ false)
  unfolding execute_task plan_stage develop_stage refactor_stage apply_stage complete_stage report
      cancel_task
  cancelled_task_lem files c = ground arith

  -- The sync throws exactly where the sync of one of the changes does.
  sync_all-result :
      (returns : FileChange → Bool) (changes : List FileChange) (files : FilesState Db)
      → (sync_all t compute_diff number_text project_id returns changes files).0
        ≡ (if all returns changes then ok tt else err sync_failed)
  unfolding sync_all
  sync_all-result returns [] files = refl
  sync_all-result returns (change ∷ changes) files = elim (Bool-cases (returns change)) [
    | inl y ↦ rw y (sync_all-result returns changes _)
    | inr n ↦ rw n refl
  ]

  -- The changes of a task whose agents have answered, and the files after they are handed to the
  -- preview.
  abbrev pub changes_of : Answers env → List FileChange
  changes_of a = final_changes a.reviewed a.written

  abbrev pub synced : Answers env → FilesState Db → FilesState Db
  synced a files =
      (sync_all t compute_diff number_text project_id env.sync_returns (changes_of a)
        (applied a files).1).1

  -- What a completed task has: answers of all agents, changes that could be applied and that the
  -- preview took, and a message that the conversation took, where it is still there.
  abbrev pub Completes : FilesState Db → Type 0
  Completes files =
      (a : Answers env) × ((u : Unit {0}) × ((applied a files).0 ≡ ok u))
      × (all env.sync_returns (changes_of a) ≡ true)
      × ((env.has_conversation && not env.message_succeeds) ≡ false)

  Completes-of : (files : FilesState Db) → (task files).0.status ≡ completed → Completes files
  unfolding execute_task plan_stage develop_stage refactor_stage apply_stage complete_stage report
      cancel_task
  Completes-of files c = elim (Option-cases env.create_plan) [
    | inl none_planned ↦ absurd (ground arith)
    | inr (plan, planned) ↦ elim (Option-cases (env.generate_code plan)) [
      | inl none_written ↦ absurd (ground arith)
      | inr (written, coded) ↦ elim (Option-cases (env.review plan written)) [
        | inl none_reviewed ↦ absurd (ground arith)
        | inr (reviewed, checked) ↦ (
          record {
            plan = plan;
            written = written;
            reviewed = reviewed;
            uncancelled = (ground arith, ground arith, ground arith);
            planned = planned;
            coded = coded;
            checked = checked;
          },
          (
            tt,
            elim (Result-cases
                (apply_file_changes t compute_diff number_text project_id
                  (final_changes reviewed written) (applied_step reviewed) files).0) [
                    | inl (e, bad) ↦ absurd (ground arith)
                    | inr (u, good) ↦ good
                  ],
          ),
          elim (Bool-cases (all env.sync_returns (final_changes reviewed written))) [
            | inl every ↦ every
            | inr some_throws ↦ absurd (
                ground (
                  arith,
                  sync_all-result env.sync_returns (final_changes reviewed written)
                      (apply_file_changes t compute_diff number_text project_id
                        (final_changes reviewed written) (applied_step reviewed) files).1,
                ))
          ],
          ground arith,
        )
      ]
    ]
  ]

  completes :
      (files : FilesState Db)
      → (h : Completes files)
      → ((task files).0.status ≡ completed) × ((task files).1.files ≡ synced h.0 files)
  unfolding execute_task plan_stage develop_stage refactor_stage apply_stage complete_stage report
      cancel_task
  completes files (a, (u, done), shown, delivered) =
      let p = a.planned in
      let c = a.coded in
      let k = a.checked in
      let n = a.uncancelled in
      let y = sync_all-result env.sync_returns (changes_of a) (applied a files).1 in
      (ground arith, ground arith)

  -- A task is completed exactly when no cancellation is seen, each agent answers, all the changes can
  -- be applied, the sync of each to the preview returns, and the conversation takes the message if it
  -- is still there. The changes applied are those of the refactor agent, or the developer's if it has
  -- none. The database takes what the pipeline writes to the rows of the task itself.
  pub execute_task-completed_iff :
      (files : FilesState Db) → ((task files).0.status ≡ completed) ↔ Completes files
  execute_task-completed_iff files = (Completes-of files, λ h. (completes files h).0)

  -- A task whose changes are applied and synced to the preview, and whose conversation does not take
  -- the message, ends as failed: its changes stay, and the event that it is completed has been sent.
  pub message_fails-changes_stay :
      (files : FilesState Db) (a : Answers env)
      → (applied a files).0 ≡ ok tt
      → all env.sync_returns (changes_of a) ≡ true
      → env.has_conversation ≡ true
      → env.message_succeeds ≡ false
      → let (result, s) = execute_task t compute_diff number_text project_id env files in
        (result.status ≡ failed)
        × (s.status ≡ failed)
        × (any is_task_completed s.events ≡ true)
        × (s.files ≡ synced a files)
  unfolding execute_task plan_stage develop_stage refactor_stage apply_stage complete_stage report
      cancel_task
  message_fails-changes_stay files a done shown there lost =
      let p = a.planned in
      let c = a.coded in
      let k = a.checked in
      let n = a.uncancelled in
      let y = sync_all-result env.sync_returns (changes_of a) (applied a files).1 in
      (ground arith, ground arith, ground arith, ground arith)
