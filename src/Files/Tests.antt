-- ===== src/Files/Tests.antt =====
-- Requests to src/files/files.service.ts over tables in memory.
use Prim.Native.String.{◌++◌}
use bolder_vibes_backend.Common.{
  ℕ, String, ◌≡◌, refl, none, some, List, [], ◌∷◌, ok, ◌==◌, if◌then◌else◌, Bool, leb,
}
use bolder_vibes_backend.Files.Tables.{FileRow, VersionRow, with_content}
use bolder_vibes_backend.Files.Memory.{Memory, memory, memory-FileLaws}
use bolder_vibes_backend.Files.Service.{
  FilesState, CreateFileDto, UpdateFileDto, restore_version, byte_length,
}
use bolder_vibes_backend.Files.Versions.{
  FilesOp, op_create, op_update, op_restore, op_remove, apply_op, restore_version_lem,
}
use bolder_vibes_backend.Files.Quota.{apply_op-outsider}

-- User 7 owns project 1.
abbrev empty_tables : FilesState Memory
empty_tables = record {
  db = record {
    owners = λ p. if p == 1 then some 7 else none;
    rows = λ j. none;
    index = λ p q. 0;
    next = 0;
    newest = λ j. none;
    history = λ j k. none;
  };
  events = [];
  syncs = [];
}

abbrev diff_text : String → String → String → String
diff_text old new path = path ++ ": changed"

abbrev number_text : ℕ → String
number_text n = "n"

abbrev app_file : CreateFileDto
app_file = record { path = "App.tsx"; content = "v1"; mime_type = none }

abbrev second : UpdateFileDto
second = record { content = "v2 is longer"; message = none }

abbrev requests : List FilesOp
requests =
    op_create 1 app_file 7
    ∷ op_update 1 0 second 7
    ∷ op_update 1 0 second 8
    ∷ op_restore 1 0 1 7
    ∷ []

abbrev row_two : FileRow
row_two = record {
  id = 0;
  project_id = 1;
  path = "App.tsx";
  content = "v2 is longer";
  mime_type = none;
  size = 12;
}

abbrev version : ℕ → String → VersionRow
version n content = record {
  file_id = 0;
  version = n;
  content = content;
  diff = none;
  message = "";
  agent_step_id = none;
}

-- After the first two requests.
abbrev edited : FilesState Memory
edited = record {
  db = record {
    owners = λ p. if p == 1 then some 7 else none;
    rows = λ j. if 0 == j then some row_two else none;
    index = λ p q. 0;
    next = 1;
    newest = λ j. if 0 == j then some (version 2 "v2 is longer") else none;
    history = λ j k. if k == 1 then some (version 1 "v1") else none;
  };
  events = [];
  syncs = [];
}

restore_version_lem_example :
    let (answer, s') = restore_version memory diff_text number_text 1 0 1 7 edited in
    (answer ≡ ok (with_content "v1" (byte_length "v1") row_two))
    × (memory.find_by_id 0 s'.db ≡ some (with_content "v1" (byte_length "v1") row_two))
    × ((new : VersionRow) × (memory.last_version 0 s'.db ≡ some new)
        × (new.content ≡ "v1")
        × (new.version ≡ 3))
    × (s'.events ≡ [])
    × (s'.syncs ≡ [])
restore_version_lem_example =
    restore_version_lem memory memory-FileLaws diff_text number_text 1 0 1 7 edited row_two
      (version 1 "v1") refl refl refl refl

apply_op-outsider_example : apply_op memory diff_text number_text (op_remove 1 0 8) edited ≡ edited
apply_op-outsider_example =
    apply_op-outsider memory diff_text number_text (op_remove 1 0 8) edited (λ e. cc)

-- Lengths in bytes, which the texts here have as many of as characters.
abbrev at_most : ℕ → String → Bool
at_most n text = leb (byte_length text) n
