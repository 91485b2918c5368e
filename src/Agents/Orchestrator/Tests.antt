-- ===== src/Agents/Orchestrator/Tests.antt =====
-- Tasks of src/agents/orchestrator/agent-orchestrator.service.ts over tables in memory.

use bolder_vibes_backend.Common.{
  ℕ, String, ◌≡◌, refl, ◌↔◌, true, false, none, some, [], ◌∷◌, any, arith, ◌==◌, if◌then◌else◌,
}
use bolder_vibes_backend.Files.Memory.{Memory, memory, memory-FileLaws, memory-has_step}
use bolder_vibes_backend.Files.Service.{FilesState, create_version}
use bolder_vibes_backend.Files.Versions.Steps.{Current}
use bolder_vibes_backend.Agents.Orchestrator.{
  completed, failed, cancelled, op_create, op_delete, AgentOutput, Environment, apply_file_changes,
  apply_change, apply_create, sync_all,
}
use bolder_vibes_backend.Agents.Orchestrator.Pipeline.{
  execute_task, plan_stage, develop_stage, refactor_stage, apply_stage, report, cancel_task,
  complete_stage,
}
use bolder_vibes_backend.Agents.Orchestrator.Outcome.{
  is_open, is_task_completed, Answers, Completes, cancelled_task_lem, execute_task-completed_iff,
  message_fails-changes_stay, synced,
}
use bolder_vibes_backend.Agents.Orchestrator.Changes.{apply_file_changes-Current}

abbrev empty : FilesState Memory
empty = record {
  db = record {
    owners = λ p. if p == 1 then some 7 else none;
    rows = λ j. none;
    index = λ p q. 0;
    next = 0;
    newest = λ j. none;
    history = λ j k. none;
  };
  events = [];
  syncs = [];
}

abbrev diff_text : String → String → String → String
diff_text old new path = path

abbrev number_text : ℕ → String
number_text n = "n"

abbrev written : AgentOutput
written = record {
  changes =
      record { operation = op_create; file_path = "App.tsx"; content = some "v1"; diff = none }
      ∷ record { operation = op_delete; file_path = "Old.tsx"; content = none; diff = none }
      ∷ [];
  summary = "An app";
}

-- The refactor agent finds nothing to change.
abbrev nothing : AgentOutput
nothing = record { changes = []; summary = "" }

abbrev smooth : Environment ℕ
smooth = record {
  cancelled_at_first = false;
  cancelled_after_plan = false;
  cancelled_after_code = false;
  create_plan = some 3;
  generate_code = λ plan. some written;
  review = λ plan out. some nothing;
  sync_returns = λ change. true;
  has_conversation = true;
  message_succeeds = true;
}

abbrev no_message : Environment ℕ
no_message = record smooth { message_succeeds = false }

abbrev stopped_after_plan : Environment ℕ
stopped_after_plan = record smooth { cancelled_after_plan = true }

cancelled_task_lem_example :
    let s = (execute_task memory diff_text number_text 1 stopped_after_plan empty).1 in
    (s.status ≡ cancelled) × (s.files ≡ empty) × (any is_open s.steps ≡ false)
unfolding execute_task plan_stage cancel_task
cancelled_task_lem_example =
    cancelled_task_lem memory diff_text number_text 1 stopped_after_plan empty refl

execute_task-completed_iff_example :
    ((execute_task memory diff_text number_text 1 smooth empty).0.status ≡ completed)
    ↔ Completes memory diff_text number_text 1 smooth empty
execute_task-completed_iff_example =
    execute_task-completed_iff memory diff_text number_text 1 smooth empty

-- The smooth task does complete.
completes_smoothly : (execute_task memory diff_text number_text 1 smooth empty).0.status ≡ completed
unfolding execute_task plan_stage develop_stage refactor_stage apply_stage complete_stage report
    sync_all apply_file_changes apply_change apply_create create_version
completes_smoothly = refl

abbrev answers : Answers no_message
answers = record {
  plan = 3;
  written = written;
  reviewed = nothing;
  uncancelled = (refl, refl, refl);
  planned = refl;
  coded = refl;
  checked = refl;
}

message_fails-changes_stay_example :
    let (result, s) = execute_task memory diff_text number_text 1 no_message empty in
    (result.status ≡ failed)
    × (s.status ≡ failed)
    × (any is_task_completed s.events ≡ true)
    × (s.files ≡ synced memory diff_text number_text 1 no_message answers empty)
unfolding apply_file_changes apply_change apply_create create_version
message_fails-changes_stay_example =
    message_fails-changes_stay memory diff_text number_text 1 no_message empty answers refl refl
      refl refl

empty-Current : Current memory empty.db
empty-Current j v last = absurd (ground arith)

apply_file_changes-Current_example :
    Current memory (apply_file_changes memory diff_text number_text 1 written.changes 2 empty).1.db
apply_file_changes-Current_example =
    apply_file_changes-Current memory memory-FileLaws diff_text number_text 1 written.changes 2
      empty (memory-has_step 2 empty.db) empty-Current
