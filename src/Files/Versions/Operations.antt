-- ===== src/Files/Versions/Operations.antt =====
-- What the operations of src/files/files.service.ts do to the rows and the versions.
use bolder_vibes_backend.Common.{
  ℕ, ◌+◌, String, ◌≡◌, refl, ap, ◌∙◌, ◌⊎◌, inl, inr, false, Option, none, some, ◌∷◌, arith, ◌==◌,
  ==_iff, ==_refl, ok, err, Option-cases, Bool-cases, ltb,
}
use Prim.Native.String.{◌++◌}
use bolder_vibes_backend.Files.Tables.{FileRow, FileData, VersionRow, FileTables, FileLaws}
use bolder_vibes_backend.Files.Service.{
  FilesState, FilesError, CreateFileDto, UpdateFileDto, create_version, check_project, find_by_id,
  create, update, remove, restore_version, byte_length, file_updated, file_not_found,
  version_not_found, access_denied, file_deleted, database_error, max_project_size_bytes,
  file_created, project_not_found, storage_limit_exceeded,
}
use bolder_vibes_backend.Files.Versions.Steps.{Rewritten, Inserted, Inserted-of}

module _ {Db : Type 0} (t : FileTables Db) (laws : FileLaws t)
    (compute_diff : String → String → String → String) (number_text : ℕ → String) where
  -- The file is found in a project that is the user's.
  pub record Opened (p i user_id : ℕ) (s : FilesState Db) (row : FileRow) : Type 0 where
    pub owned : t.owner_of p s.db ≡ some user_id
    pub there : t.find_by_id i s.db ≡ some row
    pub inside : row.project_id ≡ p
    pub answer : find_by_id t compute_diff number_text p i user_id s ≡ (ok row, s)

  pub Opened-or_refused :
      (p i user_id : ℕ) (s : FilesState Db)
      → ((row : FileRow) × Opened p i user_id s row)
        ⊎ ((e : FilesError) × (find_by_id t compute_diff number_text p i user_id s ≡ (err e, s)))
  unfolding find_by_id check_project
  Opened-or_refused p i user_id s = elim (Option-cases (t.owner_of p s.db)) [
    | inl missing ↦ inr (FilesError.project_not_found, ground arith)
    | inr (owner, known) ↦ elim (Bool-cases (owner == user_id)) [
      | inr other ↦ inr (access_denied, ground arith)
      | inl same ↦ elim (Option-cases (t.find_by_id i s.db)) [
        | inl gone ↦ inr (file_not_found, ground arith)
        | inr (row, there) ↦ elim (Bool-cases (row.project_id == p)) [
          | inr elsewhere ↦ inr (file_not_found, ground arith)
          | inl inside ↦ inl (
            row,
            record {
              owned = known ∙ ap some ((==_iff owner user_id).0 same);
              there = there;
              inside = (==_iff row.project_id p).0 inside;
              answer = ground arith;
            },
          )
        ]
      ]
    ]
  ]

  pub update_lem :
      (p i user_id : ℕ) (dto : UpdateFileDto) (s : FilesState Db) (row : FileRow)
      → Opened p i user_id s row
      → (w : Rewritten t laws compute_diff number_text i dto.content
          (byte_length dto.content)
          (some row.content)
          row.path
          dto.message
          none
          row
          s.db)
      → update t compute_diff number_text p i dto user_id s ≡ (
        ok (record row { content = dto.content; size = byte_length dto.content }),
        record {
          db = w.db';
          events = file_updated p i row.path ∷ s.events;
          syncs = record { project_id = p; path = row.path; content = some dto.content } ∷ s.syncs;
        },
      )
  unfolding update create_version
  update_lem p i user_id dto s row o w =
      let a = o.answer in let b = w.saved in let c = w.added in ground arith

  pub update_failed :
      (p i user_id : ℕ) (dto : UpdateFileDto) (s : FilesState Db) (row : FileRow)
      → Opened p i user_id s row
      → t.save i dto.content (byte_length dto.content) s.db ≡ none
      → update t compute_diff number_text p i dto user_id s ≡ (err database_error, s)
  unfolding update
  update_failed p i user_id dto s row o failed = let a = o.answer in ground arith

  pub update_refused :
      (p i user_id : ℕ) (dto : UpdateFileDto) (s : FilesState Db) (e : FilesError)
      → find_by_id t compute_diff number_text p i user_id s ≡ (err e, s)
      → update t compute_diff number_text p i dto user_id s ≡ (err e, s)
  unfolding update
  update_refused p i user_id dto s e refused = ground arith

  abbrev pub restored_message : VersionRow → Option String
  restored_message v = some ("Restored to version " ++ number_text v.version)

  -- A restore announces nothing: no event, and no file for the previews.
  pub restore_lem :
      (p i version_id user_id : ℕ) (s : FilesState Db) (row : FileRow) (v : VersionRow)
      → Opened p i user_id s row
      → t.find_version i version_id s.db ≡ some v
      → (w : Rewritten t laws compute_diff number_text i v.content
          (byte_length v.content)
          (some row.content)
          row.path
          (restored_message v)
          none
          row
          s.db)
      → restore_version t compute_diff number_text p i version_id user_id s ≡ (
        ok (record row { content = v.content; size = byte_length v.content }),
        record s { db = w.db' },
      )
  unfolding restore_version create_version
  restore_lem p i version_id user_id s row v o found w =
      let a = o.answer in let b = w.saved in let c = w.added in ground arith

  pub restore_refused :
      (p i version_id user_id : ℕ) (s : FilesState Db) (e : FilesError)
      → find_by_id t compute_diff number_text p i user_id s ≡ (err e, s)
      → restore_version t compute_diff number_text p i version_id user_id s ≡ (err e, s)
  unfolding restore_version
  restore_refused p i version_id user_id s e refused = ground arith

  pub no_version :
      (p i version_id user_id : ℕ) (s : FilesState Db) (row : FileRow)
      → Opened p i user_id s row
      → t.find_version i version_id s.db ≡ none
      → restore_version t compute_diff number_text p i version_id user_id s
        ≡ (err version_not_found, s)
  unfolding restore_version
  no_version p i version_id user_id s row o missing = let a = o.answer in ground arith

  pub remove_lem :
      (p i user_id : ℕ) (s : FilesState Db) (db' : Db) (row : FileRow)
      → Opened p i user_id s row
      → t.delete i s.db ≡ some db'
      → remove t compute_diff number_text p i user_id s ≡ (
        ok tt,
        record {
          db = db';
          events = file_deleted p i row.path ∷ s.events;
          syncs = record { project_id = p; path = row.path; content = none } ∷ s.syncs;
        },
      )
  unfolding remove
  remove_lem p i user_id s db' row o gone = let a = o.answer in ground arith

  -- What fails leaves the database as it was.
  pub remove_refused :
      (p i user_id : ℕ) (s : FilesState Db) (e : FilesError)
      → find_by_id t compute_diff number_text p i user_id s ≡ (err e, s)
      → remove t compute_diff number_text p i user_id s ≡ (err e, s)
  unfolding remove
  remove_refused p i user_id s e refused = ground arith

  pub not_deleted :
      (p i user_id : ℕ) (s : FilesState Db) (row : FileRow)
      → Opened p i user_id s row
      → t.delete i s.db ≡ none
      → remove t compute_diff number_text p i user_id s ≡ (err database_error, s)
  unfolding remove
  not_deleted p i user_id s row o failed = let a = o.answer in ground arith

  abbrev pub data_of : ℕ → CreateFileDto → FileData
  data_of p dto = record {
    project_id = p;
    path = dto.path;
    content = dto.content;
    mime_type = dto.mime_type;
    size = byte_length dto.content;
  }

  pub create_lem :
      (p user_id : ℕ) (dto : CreateFileDto) (s : FilesState Db)
      → t.owner_of p s.db ≡ some user_id
      → ltb max_project_size_bytes (t.total_size p s.db + byte_length dto.content) ≡ false
      → (w : Inserted t laws compute_diff number_text
          (data_of p dto)
          (some "Initial version")
          none
          s.db)
      → create t compute_diff number_text p dto user_id s ≡ (
        ok w.row,
        record {
          db = w.db';
          events = file_created p w.row.id dto.path ∷ s.events;
          syncs = record { project_id = p; path = dto.path; content = some dto.content } ∷ s.syncs;
        },
      )
  unfolding create create_version check_project
  create_lem p user_id dto s owned fits w =
      let same = ==_refl user_id in let b = w.inserted in let c = w.added in ground arith

  pub create_cases :
      (p user_id : ℕ) (dto : CreateFileDto) (s : FilesState Db)
      → ((t.owner_of p s.db ≡ some user_id)
          × (ltb max_project_size_bytes (t.total_size p s.db + byte_length dto.content) ≡ false)
          × Inserted t laws compute_diff number_text
              (data_of p dto)
              (some "Initial version")
              none
              s.db)
        ⊎ ((e : FilesError) × (create t compute_diff number_text p dto user_id s ≡ (err e, s)))
  unfolding create check_project
  create_cases p user_id dto s = elim (Option-cases (t.owner_of p s.db)) [
    | inl missing ↦ inr (project_not_found, ground arith)
    | inr (owner, known) ↦ elim (Bool-cases (owner == user_id)) [
      | inr other ↦ inr (access_denied, ground arith)
      | inl same ↦
          elim (Bool-cases
            (ltb max_project_size_bytes (t.total_size p s.db + byte_length dto.content))) [
              | inl over ↦ inr (storage_limit_exceeded, ground arith)
              | inr fits ↦ elim (Option-cases (t.insert (data_of p dto) s.db)) [
                | inl failed ↦ inr (database_error, ground arith)
                | inr ((row, db1), inserted) ↦ inl (
                  known ∙ ap some ((==_iff owner user_id).0 same),
                  fits,
                  Inserted-of t laws compute_diff number_text (data_of p dto)
                      (some "Initial version") none s.db db1 row refl inserted,
                )
              ]
            ]
    ]
  ]

  pub Opened-at :
      (p i user_id : ℕ) (s : FilesState Db) (row : FileRow)
      → t.owner_of p s.db ≡ some user_id
      → t.find_by_id i s.db ≡ some row
      → row.project_id ≡ p
      → Opened p i user_id s row
  unfolding find_by_id check_project
  Opened-at p i user_id s row owned there inside = record {
    owned = owned;
    there = there;
    inside = inside;
    answer = let a = ==_refl user_id in let b = (==_iff row.project_id p).1 inside in ground arith;
  }
