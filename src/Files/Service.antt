-- ===== src/Files/Service.antt =====
-- The operations of src/files/files.service.ts and src/files/versioning/versioning.service.ts, and the
-- ownership check of src/projects/projects.service.ts.
use Prim.Native.String.{◌++◌, len}
use bolder_vibes_backend.Common.{
  ℕ, ◌+◌, ◌*◌, String, Option, none, some, List, ◌∷◌, ◌==◌, ◌=s=◌, ltb, if◌then◌else◌, ok, err,
  Action, pure, gets, throw_if, or_throw, ◌>>=◌, ◌>>◌, Bool, Result,
}
use bolder_vibes_backend.Files.Tables.{FileRow, FileData, VersionRow, FileTables}

pub data FilesError : Type 0 where
  project_not_found : FilesError  -- NotFoundException
  access_denied : FilesError  -- ForbiddenException
  storage_limit_exceeded : FilesError  -- PayloadTooLargeException
  file_not_found : FilesError  -- NotFoundException
  version_not_found : FilesError  -- NotFoundException
  database_error : FilesError  -- what Prisma throws

pub data FileEvent : Type 0 where
  file_created : (project_id file_id : ℕ) → String → FileEvent
  file_updated : (project_id file_id : ℕ) → String → FileEvent
  file_deleted : (project_id file_id : ℕ) → String → FileEvent

-- A file that the previews are told of: its content, or none where it goes.
pub record PreviewSync : Type 0 where
  pub project_id : ℕ
  pub path : String
  pub content : Option String

-- The database, the events sent and the files handed to the previews, the last first.
pub record FilesState (Db : Type 0) : Type 0 where
  pub db : Db
  pub events : List FileEvent
  pub syncs : List PreviewSync

pub record CreateFileDto : Type 0 where
  pub path : String
  pub content : String
  pub mime_type : Option String

pub record UpdateFileDto : Type 0 where
  pub content : String
  pub message : Option String

-- 50 MB.
abbrev pub max_project_size_bytes : ℕ
max_project_size_bytes = 50 * 1024 * 1024

-- `Buffer.byteLength(content, 'utf8')`.
abbrev pub byte_length : String → ℕ
byte_length content = len content

-- The message of a version, where the caller gives none or an empty one.
abbrev message_or : Option String → String → String
message_or none d = d
message_or (some m) d = if m =s= "" then d else m

-- `(lastVersion?.version ?? 0) + 1`.
abbrev pub number_after : Option VersionRow → ℕ
number_after none = 0 + 1
number_after (some v) = v.version + 1

module _ {Db : Type 0} (t : FileTables Db) where
  -- A write of Prisma, which may throw.
  abbrev pub run_write : (Db → Option Db) → Action (FilesState Db) FilesError (Unit {0})
  run_write f s = elim (f s.db) [
    | none ↦ (err database_error, s)
    | some db' ↦ (ok tt, record s { db = db' })
  ]

  abbrev pub run_insert : FileData → Action (FilesState Db) FilesError FileRow
  run_insert f s = elim (t.insert f s.db) [
    | none ↦ (err database_error, s)
    | some (row, db') ↦ (ok row, record s { db = db' })
  ]

  abbrev pub emit : FileEvent → Action (FilesState Db) FilesError (Unit {0})
  emit e s = (ok tt, record s { events = e ∷ s.events })

  abbrev pub sync : ℕ → String → Option String → Action (FilesState Db) FilesError (Unit {0})
  sync p path content s = (
    ok tt,
    record s { syncs = record { project_id = p; path = path; content = content } ∷ s.syncs },
  )

  abbrev pub next_number : ℕ → Db → ℕ
  next_number file_id db = number_after (t.last_version file_id db)

  module _ (compute_diff : String → String → String → String) (number_text : ℕ → String) where
    -- A content that is `null` or empty has no diff.
    abbrev pub diff_of : Option String → String → String → Option String
    diff_of none new path = none
    diff_of (some old) new path = if old =s= "" then none else some (compute_diff old new path)

    abbrev pub version_row :
        ℕ → String → Option String → String → Option String → Option ℕ → ℕ → VersionRow
    version_row file_id new old path message step n = record {
      file_id = file_id;
      version = n;
      content = new;
      diff = diff_of old new path;
      message = message_or message ("Version " ++ number_text n);
      agent_step_id = step;
    }

    unfoldable pub create_version :
        ℕ
        → String
        → Option String
        → String
        → Option String
        → Option ℕ
        → Action (FilesState Db) FilesError (Unit {0})
    create_version file_id new old path message step s =
        run_write
          (t.insert_version
            (version_row file_id new old path message step (next_number file_id s.db)))
          s

    -- `projectsService.findById`: the project is there, and is the user's.
    unfoldable pub check_project : ℕ → ℕ → Action (FilesState Db) FilesError (Unit {0})
    check_project p user_id s = elim (t.owner_of p s.db) [
      | none ↦ (err project_not_found, s)
      | some owner ↦ (if owner == user_id then ok tt else err access_denied, s)
    ]

    -- `findFirst({ id, projectId })`.
    abbrev pub in_project : ℕ → Option FileRow → Option FileRow
    in_project p none = none
    in_project p (some row) = if row.project_id == p then some row else none

    unfoldable pub find_by_id : ℕ → ℕ → ℕ → Action (FilesState Db) FilesError FileRow
    find_by_id p file_id user_id = do
      check_project p user_id
      found ← gets (λ s. in_project p (t.find_by_id file_id s.db))
      or_throw found file_not_found

    unfoldable pub create : ℕ → CreateFileDto → ℕ → Action (FilesState Db) FilesError FileRow
    create p dto user_id = do
      check_project p user_id
      current_size ← gets (λ s. t.total_size p s.db)
      throw_if (ltb max_project_size_bytes (current_size + byte_length dto.content))
          storage_limit_exceeded
      file ← run_insert (record {
        project_id = p;
        path = dto.path;
        content = dto.content;
        mime_type = dto.mime_type;
        size = byte_length dto.content;
      })
      create_version file.id dto.content none dto.path (some "Initial version") none
      emit (file_created p file.id dto.path)
      sync p dto.path (some dto.content)
      pure file

    -- The row as Prisma returns it is the one found, with the new content and size.
    unfoldable pub update : ℕ → ℕ → UpdateFileDto → ℕ → Action (FilesState Db) FilesError FileRow
    update p file_id dto user_id = do
      file ← find_by_id p file_id user_id
      run_write (t.save file_id dto.content (byte_length dto.content))
      create_version file_id dto.content (some file.content) file.path dto.message none
      emit (file_updated p file_id file.path)
      sync p file.path (some dto.content)
      pure (record file { content = dto.content; size = byte_length dto.content })

    -- A request of an update: the DTO's limit on the content, as class-validator tests it, stands before
    -- the service; `none` is its refusal.
    unfoldable pub update_request :
        (max_length : ℕ → String → Bool)
        → ℕ
        → ℕ
        → UpdateFileDto
        → ℕ
        → FilesState Db
        → Option (Result FilesError FileRow) × FilesState Db
    unfolding update
    update_request max_length p file_id dto user_id s =
        if max_length 500000 dto.content
        then (let (answer, s') = update p file_id dto user_id s in (some answer, s'))
        else (none, s)

    unfoldable pub remove : ℕ → ℕ → ℕ → Action (FilesState Db) FilesError (Unit {0})
    remove p file_id user_id = do
      file ← find_by_id p file_id user_id
      run_write (t.delete file_id)
      emit (file_deleted p file_id file.path)
      sync p file.path none

    unfoldable pub restore_version :
        (p file_id version_id user_id : ℕ) → Action (FilesState Db) FilesError FileRow
    restore_version p file_id version_id user_id = do
      file ← find_by_id p file_id user_id
      found ← gets (λ s. t.find_version file_id version_id s.db)
      version ← or_throw found version_not_found
      run_write (t.save file_id version.content (byte_length version.content))
      create_version file_id version.content (some file.content) file.path
          (some ("Restored to version " ++ number_text version.version)) none
      pure (record file { content = version.content; size = byte_length version.content })
