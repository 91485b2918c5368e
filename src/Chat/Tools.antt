-- ===== src/Chat/Tools.antt =====
-- The tools of src/conversations/chat-ai.service.ts: `executeToolCall` and its handlers.
pub mod Cache
pub mod Reads
pub mod Writes
pub mod Calls
mod Tests
use Prim.Native.String.{◌++◌}
use bolder_vibes_backend.Common.{
  ℕ, zero, suc, ◌+◌, String, Bool, true, false, not, ◌&&◌, Option, none, some, List, [], ◌∷◌, ◌=s=◌,
  if◌then◌else◌,
}
use bolder_vibes_backend.Files.Tables.{FileRow, FileTables}
use bolder_vibes_backend.Files.Service.{PreviewSync, byte_length}
use bolder_vibes_backend.Chat.Loop.{ToolInput, FileOperation, created, updated, deleted}

-- An entry of the context: a file of the tree, its content empty until it is read.
pub record FileContext : Type 0 where
  pub path : String
  pub content : String
  pub size : ℕ

-- The answers of the tools.
pub data ToolMessage : Type 0 where
  file_content : String → ℕ → String → ToolMessage
  no_such_file : String → ToolMessage
  file_created : String → ℕ → ToolMessage
  file_updated : String → ℕ → ToolMessage
  file_deleted : String → ToolMessage
  nothing_to_delete : String → ToolMessage
  unknown_tool : String → ToolMessage
  tool_error : ToolMessage

-- The database, the context of this loop, and the files handed to the previews, the last first.
pub record ToolState (Db : Type 0) : Type 0 where
  pub db : Db
  pub context : List FileContext
  pub syncs : List PreviewSync

-- `fileContext.find(f => f.path === path)`.
abbrev pub find_entry : String → List FileContext → Option FileContext
find_entry path [] = none
find_entry path (f ∷ fs) = if f.path =s= path then some f else find_entry path fs

-- The first entry of a path is replaced, where there is one.
abbrev pub replace_entry : String → FileContext → List FileContext → List FileContext
replace_entry path e [] = []
replace_entry path e (f ∷ fs) = if f.path =s= path then e ∷ fs else f ∷ replace_entry path e fs

-- `push`: at the end.
abbrev pub push_entry : FileContext → List FileContext → List FileContext
push_entry e [] = e ∷ []
push_entry e (f ∷ fs) = f ∷ push_entry e fs

-- `splice(idx, 1)` of the first entry of a path.
abbrev pub drop_entry : String → List FileContext → List FileContext
drop_entry path [] = []
drop_entry path (f ∷ fs) = if f.path =s= path then fs else f ∷ drop_entry path fs

module _ {Db : Type 0} (t : FileTables Db) (project_id : ℕ) where
  -- A message, what was done to a file, and the state; `none` where Prisma throws.
  abbrev pub Done : Type 0
  Done = Option ((ToolMessage × Option FileOperation) × ToolState Db)

  abbrev pub synced : String → Option String → ToolState Db → ToolState Db
  synced path content s = record s {
    syncs = record { project_id = project_id; path = path; content = content } ∷ s.syncs;
  }

  -- What a read of the database leaves in the context.
  abbrev pub remember : Option FileContext → FileRow → List FileContext → List FileContext
  remember none row fs =
      push_entry (record { path = row.path; content = row.content; size = row.size }) fs
  remember (some cached) row fs =
      replace_entry cached.path (record cached { content = row.content; size = row.size }) fs

  -- An entry counts when its content is not empty.
  abbrev pub cached_content : Option FileContext → Option FileContext
  cached_content none = none
  cached_content (some f) = if f.content =s= "" then none else some f

  unfoldable pub handle_read_file : String → ToolState Db → Done
  handle_read_file path s = elim (cached_content (find_entry path s.context)) [
    | some f ↦ some ((file_content path f.size f.content, none), s)
    | none ↦ elim (t.find_by_path project_id path s.db) [
      | none ↦ some ((no_such_file path, none), s)
      | some row ↦ some (
        (file_content row.path row.size row.content, none),
        record s { context = remember (find_entry path s.context) row s.context },
      )
    ]
  ]

  -- The part of `handleEditFile` after the file is found.
  unfoldable pub edit_found : String → String → FileRow → ToolState Db → Done
  edit_found path content file s = elim (t.save file.id content (byte_length content) s.db) [
    | none ↦ none
    | some db' ↦ some (
      (file_updated path (byte_length content), some (updated path content file.id)),
      synced path (some content) (record s {
        db = db';
        context =
            replace_entry path
              (record { path = path; content = content; size = byte_length content }) s.context;
      }),
    )
  ]

  -- The part of `handleCreateFile` after the path is found to be free.
  unfoldable pub create_new : String → String → ToolState Db → Done
  create_new path content s =
      elim (t.insert
        (record {
          project_id = project_id;
          path = path;
          content = content;
          mime_type = none;
          size = byte_length content;
        })
        s.db) [
          | none ↦ none
          | some (row, db') ↦ some (
            (file_created path row.size, some (created path content row.id)),
            synced path (some content) (record s {
              db = db';
              context =
                  push_entry (record { path = path; content = content; size = row.size }) s.context;
            }),
          )
        ]

  -- `handleCreateFile` and `handleEditFile`, each of which turns to the other when the file is, or is
  -- not, there; when no one else writes, the other then finds the same and goes on.
  unfoldable pub write_file : String → String → ToolState Db → Done
  write_file path content s = elim (t.find_by_path project_id path s.db) [
    | some file ↦ edit_found path content file s
    | none ↦ create_new path content s
  ]

  unfoldable pub handle_delete_file : String → ToolState Db → Done
  handle_delete_file path s = elim (t.find_by_path project_id path s.db) [
    | none ↦ some ((nothing_to_delete path, some (deleted path none)), s)
    | some file ↦ elim (t.delete file.id s.db) [
      | none ↦ none
      | some db' ↦ some (
        (file_deleted path, some (deleted path (some file.id))),
        synced path none (record s { db = db'; context = drop_entry path s.context }),
      )
    ]
  ]

  -- The `catch`: an error becomes a message.
  abbrev pub caught : Done → ToolState Db → (ToolMessage × Option FileOperation) × ToolState Db
  caught none s = ((tool_error, none), s)
  caught (some done) s = done

  unfoldable pub execute_tool_call :
      String → ToolInput → ToolState Db → (ToolMessage × Option FileOperation) × ToolState Db
  execute_tool_call name input s =
      if name =s= "read_file"
      then caught (handle_read_file input.path s) s
      else if name =s= "create_file"
      then caught (write_file input.path input.content s) s
      else if name =s= "edit_file"
      then caught (write_file input.path input.content s) s
      else if name =s= "delete_file"
      then caught (handle_delete_file input.path s) s
      else ((unknown_tool name, none), s)
