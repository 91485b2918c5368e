-- ===== src/Chat/Tools/Tests.antt =====
-- Tool calls of src/conversations/chat-ai.service.ts over tables in memory.
use bolder_vibes_backend.Common.{
  String, ◌≡◌, refl, sym, subst, inl, inr, none, some, List, [], ◌∷◌, arith, ◌==◌, if◌then◌else◌,
}
use mathlib.Core.Option.{some-injective}
use bolder_vibes_backend.Files.Tables.{FileRow}
use bolder_vibes_backend.Files.Memory.{Memory, memory, memory-FileLaws}
use bolder_vibes_backend.Chat.Loop.{ToolInput, updated}
use bolder_vibes_backend.Chat.Tools.{
  FileContext, ToolState, file_content, file_updated, find_entry, handle_read_file, write_file,
  edit_found, execute_tool_call,
}
use bolder_vibes_backend.Chat.Tools.Cache.{Tracks, Agrees}
use bolder_vibes_backend.Chat.Tools.Cache.Entries.{same_or_not}
use bolder_vibes_backend.Chat.Tools.Calls.{write-read}

abbrev app : FileRow
app = record {
  id = 0;
  project_id = 1;
  path = "App.tsx";
  content = "v2 is longer";
  mime_type = none;
  size = 12;
}

abbrev tree_entry : FileContext
tree_entry = record { path = "App.tsx"; content = ""; size = 12 }

-- One file, and the tree that the conversation starts with.
abbrev started : ToolState Memory
started = record {
  db = record {
    owners = λ p. if p == 1 then some 7 else none;
    rows = λ j. if 0 == j then some app else none;
    index = λ p q. 0;
    next = 1;
    newest = λ j. none;
    history = λ j k. none;
  };
  context = tree_entry ∷ [];
  syncs = [];
}

started-Tracks : Tracks memory 1 started
started-Tracks = record {
  distinct = (refl, tt);
  agrees = λ q f found. elim (same_or_not "App.tsx" q) [
    | inl same ↦
        let it : tree_entry ≡ f =
          some-injective _ _
            (subst (λ z. find_entry z (tree_entry ∷ []) ≡ some f) (sym same) found) in
        (
          app,
          subst (λ z. memory.find_by_path 1 z started.db ≡ some app) same refl,
          subst (λ z. Agrees memory 1 z app) it (refl, inl refl),
        )
    | inr other ↦ absurd (ground arith)
  ];
}

abbrev input : String → String → ToolInput
input path content = record { path = path; content = content }

abbrev calls : List (String × ToolInput)
calls =
    ("read_file", input "App.tsx" "")
    ∷ ("create_file", input "Home.tsx" "home")
    ∷ ("edit_file", input "App.tsx" "v3")
    ∷ ("delete_file", input "Home.tsx" "")
    ∷ []

abbrev after_edit : ToolState Memory
after_edit = (execute_tool_call memory 1 "edit_file" (input "App.tsx" "v3") started).1

write-read_example :
    (s2 : ToolState Memory) × (handle_read_file memory 1 "App.tsx" after_edit
      ≡ some ((file_content "App.tsx" 2 "v3", none), s2))
unfolding write_file edit_found execute_tool_call
write-read_example =
    write-read memory memory-FileLaws 1 "App.tsx" "v3" started after_edit
      (file_updated "App.tsx" 2, some (updated "App.tsx" "v3" 0)) started-Tracks refl
