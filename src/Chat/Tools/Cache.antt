-- ===== src/Chat/Tools/Cache.antt =====
-- The context that the tools of src/conversations/chat-ai.service.ts keep agrees with the database, so
-- a read that it answers is a read of the database.
pub mod Entries
use bolder_vibes_backend.Common.{
  ℕ, ◌+◌, String, ◌≡◌, refl, sym, ap, ◌∙◌, subst, ◌⊎◌, inl, inr, Bool, true, false, not, Option,
  none, some, List, [], ◌∷◌, arith, ◌=s=◌, ◌==◌, ==_iff, ==_refl, eq_iff, if◌then◌else◌, Bool-cases,
  Option-cases,
}
use mathlib.Core.Option.{some-injective}
use bolder_vibes_backend.Files.Tables.{FileRow, FileTables, FileLaws, with_content}
use bolder_vibes_backend.Files.Service.{byte_length}
use bolder_vibes_backend.Chat.Loop.{ToolInput, FileOperation}
use bolder_vibes_backend.Chat.Tools.{
  FileContext, ToolState, ToolMessage, file_content, no_such_file, find_entry, replace_entry,
  push_entry, drop_entry, remember, cached_content, handle_read_file, edit_found, create_new,
  write_file, handle_delete_file, execute_tool_call, caught,
}
use bolder_vibes_backend.Chat.Tools.Cache.Entries.{
  DistinctPaths, find_entry-path, find-push, find-push_other, find-replace, find-replaced,
  replace-none, find-drop_other, find-dropped, drop-DistinctPaths, push-DistinctPaths,
  replace-DistinctPaths, same_or_not,
}

module _ {Db : Type 0} (t : FileTables Db) (p : ℕ) where
  -- An entry is of a row: it has its size, and its content if it has one.
  abbrev pub Agrees : FileContext → FileRow → Type 0
  Agrees f row = (f.size ≡ row.size) × ((f.content ≡ "") ⊎ (f.content ≡ row.content))

  -- No path has two entries, and each entry is of the row at its path.
  pub record Tracks (s : ToolState Db) : Type 0 where
    pub distinct : DistinctPaths s.context
    pub agrees :
        (q : String) (f : FileContext)
        → find_entry q s.context ≡ some f
        → (row : FileRow) × (t.find_by_path p q s.db ≡ some row) × Agrees f row

  -- What a read of the database answers.
  abbrev pub answer_from_row : String → Option FileRow → ToolMessage
  answer_from_row path none = no_such_file path
  answer_from_row path (some row) = file_content path row.size row.content

  abbrev pub uncached : String → Db → ToolMessage
  uncached path db = answer_from_row path (t.find_by_path p path db)

module _ {Db : Type 0} (t : FileTables Db) (laws : FileLaws t) (p : ℕ) where
  pub no_entry :
      (path : String) (s : ToolState Db)
      → Tracks t p s
      → t.find_by_path p path s.db ≡ none
      → find_entry path s.context ≡ none
  no_entry path s h missing = elim (Option-cases (find_entry path s.context)) [
    | inl e ↦ e
    | inr (f, e) ↦ let (row, there, _) = h.agrees path f e in absurd (ground arith)
  ]

  -- Rows at two paths have two ids.
  pub other_row :
      (a b : String) (db : Db) (x y : FileRow)
      → (a =s= b) ≡ false
      → t.find_by_path p a db ≡ some x
      → t.find_by_path p b db ≡ some y
      → (x.id == y.id) ≡ false
  other_row a b db x y ne at_a at_b = elim (Bool-cases (x.id == y.id)) [
    | inr differ ↦ differ
    | inl same ↦
        let (ix, _, px) = laws.path-id p a db x at_a in
        let (iy, _, py) = laws.path-id p b db y at_b in
        let it : x ≡ y =
          some-injective _ _ (
            sym ix
            ∙ subst (λ k. t.find_by_id k db ≡ some y) (sym ((==_iff x.id y.id).0 same)) iy) in
        let both : (a =s= b) ≡ true = (eq_iff a b).1 (sym px ∙ ap (λ z. z.path) it ∙ py) in
        absurd (ground arith)
  ]

  -- An entry for a path is set, in a context of which the other entries stay.
  pub Tracks-at :
      (path : String) (s s' : ToolState Db)
      → DistinctPaths s'.context
      → ((f : FileContext)
          → find_entry path s'.context ≡ some f
          → (row : FileRow) × (t.find_by_path p path s'.db ≡ some row) × Agrees t p f row)
      → ((q : String) → (path =s= q) ≡ false → find_entry q s'.context ≡ find_entry q s.context)
      → ((q : String) (row : FileRow)
          → (path =s= q) ≡ false
          → t.find_by_path p q s.db ≡ some row
          → t.find_by_path p q s'.db ≡ some row)
      → Tracks t p s
      → Tracks t p s'
  Tracks-at path s s' d own entries rows h = record {
    distinct = d;
    agrees = λ q f found. elim (same_or_not path q) [
      | inl same ↦
          subst (λ z. (row : FileRow) × (t.find_by_path p z s'.db ≡ some row) × Agrees t p f row)
            same (own f (subst (λ z. find_entry z s'.context ≡ some f) (sym same) found))
      | inr ne ↦
          let (row, there, fits) = h.agrees q f (sym (entries q ne) ∙ found) in
          (row, rows q row ne there, fits)
    ];
  }
