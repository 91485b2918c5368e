-- ===== src/Agents/Orchestrator/Changes.antt =====
-- The changes that src/agents/orchestrator/agent-orchestrator.service.ts applies, and the versions.
use bolder_vibes_backend.Common.{
  ℕ, String, ◌≡◌, refl, inl, inr, none, some, List, [], ◌∷◌, arith, Option-cases, ◌≢◌, ◌⊎◌, subst,
  sym, ◌∙◌,
}
use bolder_vibes_backend.Files.Tables.{FileRow, FileTables, FileLaws, FileData}
use bolder_vibes_backend.Files.Service.{FilesState, create_version, byte_length}
use bolder_vibes_backend.Files.Versions.Steps.{
  Current, Current-delete, Rewritten, Rewritten-of, Inserted, Inserted-of,
}
use bolder_vibes_backend.Agents.Orchestrator.{
  FileChange, op_create, op_update, op_delete, Operation, apply_create, apply_update, apply_delete,
  apply_change, apply_file_changes, content_of, true,
}

module _ {Db : Type 0} (t : FileTables Db) (laws : FileLaws t)
    (compute_diff : String → String → String → String) (number_text : ℕ → String)
    (project_id : ℕ) where
  abbrev new_data : FileChange → FileData
  new_data change = record {
    project_id = project_id;
    path = change.file_path;
    content = content_of change;
    mime_type = none;
    size = byte_length (content_of change);
  }

  -- The step that the versions name is there, and the newest versions are current.
  abbrev Good : ℕ → Db → Type 0
  Good step_id db = (laws.has_step step_id db ≡ true) × Current t db

  created_lem :
      (change : FileChange) (step_id : ℕ) (s : FilesState Db)
      → (w : Inserted t laws compute_diff number_text
          (new_data change)
          (some "Created by AI agent")
          (some step_id)
          s.db)
      → (apply_create t compute_diff number_text project_id change step_id s).1.db ≡ w.db'
  unfolding apply_create create_version
  created_lem change step_id s w = let a = w.inserted in let b = w.added in ground arith

  not_created :
      (change : FileChange) (step_id : ℕ) (s : FilesState Db)
      → t.insert (new_data change) s.db ≡ none
      → (apply_create t compute_diff number_text project_id change step_id s).1.db ≡ s.db
  unfolding apply_create
  not_created change step_id s failed = ground arith

  updated_lem :
      (change : FileChange) (step_id : ℕ) (row : FileRow) (s : FilesState Db)
      → (w : Rewritten t laws compute_diff number_text row.id
          (content_of change)
          (byte_length (content_of change))
          (some row.content)
          change.file_path
          (some "Updated by AI agent")
          (some step_id)
          row
          s.db)
      → (apply_update t compute_diff number_text project_id change step_id row s).1.db ≡ w.db'
  unfolding apply_update create_version
  updated_lem change step_id row s w = let a = w.saved in let b = w.added in ground arith

  not_updated :
      (change : FileChange) (step_id : ℕ) (row : FileRow) (s : FilesState Db)
      → t.save row.id (content_of change) (byte_length (content_of change)) s.db ≡ none
      → (apply_update t compute_diff number_text project_id change step_id row s).1.db ≡ s.db
  unfolding apply_update
  not_updated change step_id row s failed = ground arith

  deleted_lem :
      (change : FileChange) (row : FileRow) (s : FilesState Db) (db' : Db)
      → t.delete row.id s.db ≡ some db'
      → (apply_delete t compute_diff number_text project_id change row s).1.db ≡ db'
  unfolding apply_delete
  deleted_lem change row s db' gone = ground arith

  not_deleted :
      (change : FileChange) (row : FileRow) (s : FilesState Db)
      → t.delete row.id s.db ≡ none
      → (apply_delete t compute_diff number_text project_id change row s).1.db ≡ s.db
  unfolding apply_delete
  not_deleted change row s failed = ground arith

  create-Good :
      (change : FileChange) (step_id : ℕ) (s : FilesState Db)
      → Good step_id s.db
      → Good step_id (apply_create t compute_diff number_text project_id change step_id s).1.db
  create-Good change step_id s (known, h) = elim (Option-cases (t.insert (new_data change) s.db)) [
    | inl failed ↦ rw (not_created change step_id s failed) (known, h)
    | inr ((row, db1), inserted) ↦
        let w =
          Inserted-of t laws compute_diff number_text (new_data change) (some "Created by AI agent")
            (some step_id) s.db db1 row known inserted in
        rw (created_lem change step_id s w) (
          laws.has_step-insert_version _ w.inserted_db w.db' step_id w.added
              ∙ laws.has_step-insert (new_data change) s.db w.inserted_db w.row step_id w.inserted
              ∙ known,
          w.current h,
        )
  ]

  update-Good :
      (change : FileChange) (step_id : ℕ) (row : FileRow) (s : FilesState Db)
      → t.find_by_path project_id change.file_path s.db ≡ some row
      → Good step_id s.db
      → Good step_id (apply_update t compute_diff number_text project_id change step_id row s).1.db
  update-Good change step_id row s there (known, h) =
      let (found, _, _) = laws.path-id project_id change.file_path s.db row there in
      elim (Option-cases
        (t.save row.id (content_of change) (byte_length (content_of change)) s.db)) [
          | inl failed ↦ rw (not_updated change step_id row s failed) (known, h)
          | inr (db1, saved) ↦
              let w =
                Rewritten-of t laws compute_diff number_text row.id (content_of change)
                  (byte_length (content_of change)) (some row.content) change.file_path
                  (some "Updated by AI agent") (some step_id) row s.db db1 found known saved in
              rw (updated_lem change step_id row s w) (
                laws.has_step-insert_version _ w.saved_db w.db' step_id w.added
                    ∙ laws.has_step-save row.id _ _ s.db w.saved_db step_id w.saved
                    ∙ known,
                w.current h,
              )
        ]

  delete-Good :
      (change : FileChange) (step_id : ℕ) (row : FileRow) (s : FilesState Db)
      → Good step_id s.db
      → Good step_id (apply_delete t compute_diff number_text project_id change row s).1.db
  delete-Good change step_id row s (known, h) = elim (Option-cases (t.delete row.id s.db)) [
    | inl failed ↦ rw (not_deleted change row s failed) (known, h)
    | inr (db', gone) ↦ rw (deleted_lem change row s db' gone) (
      laws.has_step-delete row.id s.db db' step_id gone ∙ known,
      Current-delete t laws compute_diff number_text row.id s.db db' gone h,
    )
  ]

  creates :
      (change : FileChange) (step_id : ℕ) (s : FilesState Db)
      → change.operation ≡ op_create
      → apply_change t compute_diff number_text project_id change step_id s
        ≡ apply_create t compute_diff number_text project_id change step_id s
  unfolding apply_change
  creates change step_id s op = ground arith

  -- An update or a deletion of a file that is not there does nothing.
  skips :
      (change : FileChange) (step_id : ℕ) (s : FilesState Db)
      → change.operation ≢ op_create
      → t.find_by_path project_id change.file_path s.db ≡ none
      → (apply_change t compute_diff number_text project_id change step_id s).1 ≡ s
  unfolding apply_change
  skips change step_id s op missing = ground arith

  updates :
      (change : FileChange) (step_id : ℕ) (row : FileRow) (s : FilesState Db)
      → change.operation ≡ op_update
      → t.find_by_path project_id change.file_path s.db ≡ some row
      → apply_change t compute_diff number_text project_id change step_id s
        ≡ apply_update t compute_diff number_text project_id change step_id row s
  unfolding apply_change
  updates change step_id row s op there = ground arith

  deletes :
      (change : FileChange) (step_id : ℕ) (row : FileRow) (s : FilesState Db)
      → change.operation ≡ op_delete
      → t.find_by_path project_id change.file_path s.db ≡ some row
      → apply_change t compute_diff number_text project_id change step_id s
        ≡ apply_delete t compute_diff number_text project_id change row s
  unfolding apply_change
  deletes change step_id row s op there = ground arith

  change-Good :
      (change : FileChange) (step_id : ℕ) (s : FilesState Db) (op : Operation)
      → change.operation ≡ op
      → Good step_id s.db
      → Good step_id (apply_change t compute_diff number_text project_id change step_id s).1.db
  change-Good change step_id s op_create op h =
      rw (creates change step_id s op) (create-Good change step_id s h)
  change-Good change step_id s op_update op h =
      elim (Option-cases (t.find_by_path project_id change.file_path s.db)) [
        | inl missing ↦ rw (skips change step_id s (λ e. absurd (ground arith)) missing) h
        | inr (row, there) ↦
            rw (updates change step_id row s op there) (update-Good change step_id row s there h)
      ]
  change-Good change step_id s op_delete op h =
      elim (Option-cases (t.find_by_path project_id change.file_path s.db)) [
        | inl missing ↦ rw (skips change step_id s (λ e. absurd (ground arith)) missing) h
        | inr (row, there) ↦
            rw (deletes change step_id row s op there) (delete-Good change step_id row s h)
      ]

  one_more :
      (change : FileChange) (changes : List FileChange) (step_id : ℕ) (s : FilesState Db)
      → let s' = (apply_change t compute_diff number_text project_id change step_id s).1 in
        ((apply_file_changes t compute_diff number_text project_id (change ∷ changes) step_id s).1
          ≡ s')
        ⊎ ((apply_file_changes t compute_diff number_text project_id (change ∷ changes) step_id s).1
            ≡ (apply_file_changes t compute_diff number_text project_id changes step_id s').1)
  unfolding apply_file_changes
  one_more change changes step_id s = ground arith

  apply_file_changes-Good :
      (changes : List FileChange) (step_id : ℕ) (s : FilesState Db)
      → Good step_id s.db
      → Good step_id
          (apply_file_changes t compute_diff number_text project_id changes step_id s).1.db
  unfolding apply_file_changes
  apply_file_changes-Good [] step_id s h = h
  apply_file_changes-Good (change ∷ changes) step_id s h =
      let k = change-Good change step_id s change.operation refl h in
      elim (one_more change changes step_id s) [
        | inl stopped ↦ subst (λ z. Good step_id z.db) (sym stopped) k
        | inr went_on ↦
            subst (λ z. Good step_id z.db) (sym went_on)
              (apply_file_changes-Good changes step_id
                (apply_change t compute_diff number_text project_id change step_id s).1 k)
      ]

  -- Whatever the agents hand in, if the step that the versions name is there, and if every file that
  -- has versions holds what the newest of them holds, so it does after the changes: also where the
  -- database refuses one of them, as for a path that is taken or a content that the column does not
  -- take. Losses of the connection between two writes are left out.
  pub apply_file_changes-Current :
      (changes : List FileChange) (step_id : ℕ) (s : FilesState Db)
      → laws.has_step step_id s.db ≡ true
      → Current t s.db
      → Current t (apply_file_changes t compute_diff number_text project_id changes step_id s).1.db
  apply_file_changes-Current changes step_id s known h =
      (apply_file_changes-Good changes step_id s (known, h)).1
