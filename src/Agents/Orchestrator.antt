-- ===== src/Agents/Orchestrator.antt =====
-- The task pipeline of src/agents/orchestrator/agent-orchestrator.service.ts: `executeTask`,
-- `cancelTask` and `applyFileChanges`.
pub mod Pipeline
pub mod Changes
pub mod Outcome
mod Tests
use bolder_vibes_backend.Common.{
  ℕ, ◌+◌, String, Bool, true, false, Option, none, some, List, [], ◌∷◌, ◌=s=◌, ◌==◌, map, length,
  if◌then◌else◌, Result, ok, err, Action, pure, gets, throw, ◌>>=◌, ◌>>◌,
}
use bolder_vibes_backend.Files.Tables.{FileRow, FileTables}
use bolder_vibes_backend.Files.Service.{
  FilesState, FilesError, FileEvent, file_created, file_updated, file_deleted, PreviewSync,
  run_write, run_insert, emit, create_version, byte_length,
}

pub data TaskStatus : Type 0 where
  pending planning developing refactoring completed failed cancelled : TaskStatus

pub data StepStatus : Type 0 where
  step_pending step_running step_completed step_failed step_skipped : StepStatus

pub data AgentType : Type 0 where
  planner developer refactor : AgentType

pub record Step : Type 0 where
  pub agent_type : AgentType
  pub step_order : ℕ
  pub status : StepStatus

pub data Operation : Type 0 where
  op_create op_update op_delete : Operation

pub record FileChange : Type 0 where
  pub operation : Operation
  pub file_path : String
  pub content : Option String
  pub diff : Option String

-- What the developer and the refactor agent return.
pub record AgentOutput : Type 0 where
  pub changes : List FileChange
  pub summary : String

pub data TaskEvent : Type 0 where
  task_started : TaskEvent
  step_started : ℕ → TaskEvent
  step_finished : ℕ → TaskEvent
  task_completed : ℕ → TaskEvent
  task_failed : TaskEvent

-- The task's row and steps (the last first), its events, the messages of its conversation, and the
-- files, with the events and previews of the files service.
pub record TaskState (Db : Type 0) : Type 0 where
  pub status : TaskStatus
  pub steps : List Step
  pub events : List TaskEvent
  pub messages : List String
  pub files : FilesState Db

-- Why the body of the `try` throws.
pub data PipelineError : Type 0 where
  agent_failed : AgentType → PipelineError
  files_failed : FilesError → PipelineError
  sync_failed : PipelineError
  message_failed : PipelineError

pub record PipelineResult : Type 0 where
  pub status : TaskStatus
  pub files_changed : ℕ

-- What happens around the task: the three reads of the cancellation key, the answers of the agents,
-- whether `previewService.syncFile` of a change returns (it throws where the directory of the preview
-- does not take the file), and whether the conversation is still there and takes a message.
pub record Environment (Plan : Type 0) : Type 0 where
  pub cancelled_at_first : Bool
  pub cancelled_after_plan : Bool
  pub cancelled_after_code : Bool
  pub create_plan : Option Plan
  pub generate_code : Plan → Option AgentOutput
  pub review : Plan → AgentOutput → Option AgentOutput
  pub sync_returns : FileChange → Bool
  pub has_conversation : Bool
  pub message_succeeds : Bool

-- `a || b` on texts.
abbrev pub text_or : String → String → String
text_or a b = if a =s= "" then b else a

-- `change.content || ''`.
abbrev pub content_of : FileChange → String
content_of change = elim change.content [ none ↦ "" | some c ↦ c ]

module _ {Db : Type 0} (t : FileTables Db) (compute_diff : String → String → String → String)
    (number_text : ℕ → String) (project_id : ℕ) where
  abbrev pub Files : Type 0
  Files = Action (FilesState Db) FilesError (Unit {0})

  unfoldable pub apply_create : FileChange → ℕ → Files
  apply_create change step_id = do
    file ← run_insert t (record {
      project_id = project_id;
      path = change.file_path;
      content = content_of change;
      mime_type = none;
      size = byte_length (content_of change);
    })
    create_version t compute_diff number_text file.id (content_of change) none change.file_path
        (some "Created by AI agent") (some step_id)
    emit t (file_created project_id file.id change.file_path)

  unfoldable pub apply_update : FileChange → ℕ → FileRow → Files
  apply_update change step_id existing = do
    run_write t (t.save existing.id (content_of change) (byte_length (content_of change)))
    create_version t compute_diff number_text existing.id (content_of change)
        (some existing.content) change.file_path (some "Updated by AI agent") (some step_id)
    emit t (file_updated project_id existing.id change.file_path)

  unfoldable pub apply_delete : FileChange → FileRow → Files
  apply_delete change found = do
    run_write t (t.delete found.id)
    emit t (file_deleted project_id found.id change.file_path)

  -- A change of a file that is not there is skipped.
  unfoldable pub apply_change : FileChange → ℕ → Files
  apply_change change step_id s = elim change.operation [
    | op_create ↦ apply_create change step_id s
    | op_update ↦ elim (t.find_by_path project_id change.file_path s.db) [
      | none ↦ (ok tt, s)
      | some existing ↦ apply_update change step_id existing s
    ]
    | op_delete ↦ elim (t.find_by_path project_id change.file_path s.db) [
      | none ↦ (ok tt, s)
      | some found ↦ apply_delete change found s
    ]
  ]

  -- `applyFileChanges`: one change after the other, up to one that throws.
  unfoldable pub apply_file_changes : List FileChange → ℕ → Files
  apply_file_changes [] step_id s = (ok tt, s)
  apply_file_changes (change ∷ changes) step_id s =
      let (r, s') = apply_change change step_id s in
      elim r [ ok u ↦ apply_file_changes changes step_id s' | err e ↦ (err e, s') ]

  abbrev pub sync_change : FileChange → PreviewSync
  sync_change change = record {
    project_id = project_id;
    path = change.file_path;
    content = elim change.operation [ op_delete ↦ none | _ ↦ change.content ];
  }

  -- `syncToPreview`: one change after the other, up to one whose sync throws.
  unfoldable pub sync_all :
      (returns : FileChange → Bool)
      → List FileChange
      → FilesState Db
      → Result PipelineError (Unit {0}) × FilesState Db
  sync_all returns [] s = (ok tt, s)
  sync_all returns (change ∷ changes) s =
      let rest = sync_all returns changes (record s { syncs = sync_change change ∷ s.syncs }) in
      if returns change then rest else (err sync_failed, s)
