-- ===== src/Chat/Tools/Calls.antt =====
-- Any sequence of tool calls of src/conversations/chat-ai.service.ts, as its loop makes them.
use bolder_vibes_backend.Common.{
  ℕ, String, ◌≡◌, refl, ◌∙◌, subst, inl, inr, Option, none, some, List, [], ◌∷◌, arith,
  Option-cases,
}
use bolder_vibes_backend.Files.Tables.{FileTables, FileLaws}
use bolder_vibes_backend.Files.Service.{byte_length}
use bolder_vibes_backend.Chat.Loop.{ToolInput, FileOperation}
use bolder_vibes_backend.Chat.Tools.{
  ToolState, ToolMessage, file_content, handle_read_file, edit_found, create_new, write_file,
  execute_tool_call,
}
use bolder_vibes_backend.Chat.Tools.Cache.{Tracks}
use bolder_vibes_backend.Chat.Tools.Reads.{read_file_lem}
use bolder_vibes_backend.Chat.Tools.Writes.{
  Writes, edited, inserted, new_data, edited-Writes, inserted-Writes,
}

module _ {Db : Type 0} (t : FileTables Db) (laws : FileLaws t) (p : ℕ) where
  write_file-Writes :
      (path content : String) (s s' : ToolState Db) (r : ToolMessage × Option FileOperation)
      → Tracks t p s
      → write_file t p path content s ≡ some (r, s')
      → Writes t laws p path content s'
  unfolding write_file edit_found create_new
  write_file-Writes path content s s' r h e = elim (Option-cases (t.find_by_path p path s.db)) [
    | inr (file, there) ↦ elim (Option-cases (t.save file.id content (byte_length content) s.db)) [
      | inl failed ↦ absurd (ground arith)
      | inr (db', saved) ↦
          let it : edited t laws p path content db' s ≡ s' = ground arith in
          subst (λ z. Writes t laws p path content z) it
            (edited-Writes t laws p path content file s db' h there saved)
    ]
    | inl free ↦ elim (Option-cases (t.insert (new_data t laws p path content) s.db)) [
      | inl failed ↦ absurd (ground arith)
      | inr ((row, db'), added) ↦
          let it : inserted t laws p path content row db' s ≡ s' = ground arith in
          subst (λ z. Writes t laws p path content z) it
            (inserted-Writes t laws p path content row s db' h free added)
    ]
  ]

  -- The tool calls of a conversation, in order.
  abbrev pub run_calls : List (String × ToolInput) → ToolState Db → ToolState Db
  run_calls [] s = s
  run_calls ((name, input) ∷ calls) s = run_calls calls (execute_tool_call t p name input s).1

  -- A content that a write has put at a path is what the next read of the path answers with, with its
  -- length in bytes.
  pub write-read :
      (path content : String) (s s' : ToolState Db) (r : ToolMessage × Option FileOperation)
      → Tracks t p s
      → write_file t p path content s ≡ some (r, s')
      → (s2 : ToolState Db) × (handle_read_file t p path s'
          ≡ some ((file_content path (byte_length content) content, none), s2))
  write-read path content s s' r h e =
      let ((row, there, text, size), k) = write_file-Writes path content s s' r h e in
      let (s2, read, _, _) = read_file_lem t laws p path s' k in
      (s2, read ∙ rw (there, text, size) refl)
