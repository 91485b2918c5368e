-- ===== src/Files/Tables.antt =====
-- The tables behind src/files: what Prisma is asked for, and what it promises under the constraints
-- of prisma/schema.prisma.

use mathlib.Core.Option
use bolder_vibes_backend.Common.{
  ℕ, ◌+◌, ◌<◌, String, ◌≡◌, true, ◌&&◌, Option, none, some, ◌==◌, ◌=s=◌, if◌then◌else◌, is_some,
  Bool,
}

pub record FileRow : Type 0 where
  pub id : ℕ
  pub project_id : ℕ
  pub path : String
  pub content : String
  pub mime_type : Option String
  pub size : ℕ

-- The data of a new row.
pub record FileData : Type 0 where
  pub project_id : ℕ
  pub path : String
  pub content : String
  pub mime_type : Option String
  pub size : ℕ

pub record VersionRow : Type 0 where
  pub file_id : ℕ
  pub version : ℕ
  pub content : String
  pub diff : Option String
  pub message : String
  pub agent_step_id : Option ℕ

abbrev pub row_of : ℕ → FileData → FileRow
row_of i f = record {
  id = i;
  project_id = f.project_id;
  path = f.path;
  content = f.content;
  mime_type = f.mime_type;
  size = f.size;
}

abbrev pub with_content : String → ℕ → FileRow → FileRow
with_content c n row = record row { content = c; size = n }

-- A version number above every one of the file.
abbrev pub IsNext : Option VersionRow → ℕ → Type 0
IsNext none n = 0 < n
IsNext (some v) n = v.version < n

-- The queries that the source makes. A write gives `none` where Prisma throws.
pub record FileTables (Db : Type 0) : Type 0 where
  pub owner_of : ℕ → Db → Option ℕ
  pub find_by_id : ℕ → Db → Option FileRow
  pub find_by_path : ℕ → String → Db → Option FileRow
  pub total_size : ℕ → Db → ℕ
  pub insert : FileData → Db → Option (FileRow × Db)
  pub save : ℕ → String → ℕ → Db → Option Db
  pub delete : ℕ → Db → Option Db
  pub last_version : ℕ → Db → Option VersionRow
  pub find_version : (file_id version_id : ℕ) → Db → Option VersionRow
  pub insert_version : VersionRow → Db → Option Db

-- The step that a version names, if it names one, is there.
abbrev pub step_there : {Db : Type 0} → (ℕ → Db → Bool) → Option ℕ → Db → Bool
step_there has_step none db = true
step_there has_step (some k) db = has_step k db

-- What a write leaves of the rows, seen by the ids. A write that the columns and the constraints allow
-- succeeds: losses of the connection are left out, and so is a request that comes in between.
pub record FileLaws {Db : Type 0} (t : FileTables Db) : Type 0 where
  -- The texts that the column of a content takes, and the agents' steps.
  pub fits : String → Bool
  pub has_step : ℕ → Db → Bool
  pub path-id :
      (p : ℕ) (q : String) (db : Db) (row : FileRow)
      → t.find_by_path p q db ≡ some row
      → (t.find_by_id row.id db ≡ some row) × (row.project_id ≡ p) × (row.path ≡ q)
  -- The pair of project and path is unique, and a row needs its project.
  pub insert-succeeds :
      (f : FileData) (db : Db)
      → t.find_by_path f.project_id f.path db ≡ none
      → is_some (t.owner_of f.project_id db) ≡ true
      → (row : FileRow) × (db' : Db) × (t.insert f db ≡ some (row, db'))
  pub insert-find :
      (f : FileData) (db db' : Db) (row : FileRow)
      → t.insert f db ≡ some (row, db')
      → (row ≡ row_of row.id f)
        × (t.last_version row.id db ≡ none)
        × ((j : ℕ) → t.find_by_id j db' ≡ (if row.id == j then some row else t.find_by_id j db))
        × ((p : ℕ) (q : String)
            → t.find_by_path p q db'
              ≡ (if (f.project_id == p) && (f.path =s= q) then some row else t.find_by_path p q db))
  pub insert-rest :
      (f : FileData) (db db' : Db) (row : FileRow) (j : ℕ)
      → t.insert f db ≡ some (row, db')
      → (t.last_version j db' ≡ t.last_version j db)
        × (t.owner_of j db' ≡ t.owner_of j db)
        × (t.total_size j db' ≡ t.total_size j db + (if f.project_id == j then f.size else 0))
  pub save-succeeds :
      (i : ℕ) (c : String) (n : ℕ) (db : Db) (row : FileRow)
      → t.find_by_id i db ≡ some row
      → fits c ≡ true
      → (db' : Db) × (t.save i c n db ≡ some db')
  pub save-find :
      (i : ℕ) (c : String) (n : ℕ) (db db' : Db)
      → t.save i c n db ≡ some db'
      → ((j : ℕ)
          → t.find_by_id j db' ≡ (
              if i == j
              then Option.map (with_content c n) (t.find_by_id j db)
              else t.find_by_id j db))
        × ((p : ℕ) (q : String)
            → t.find_by_path p q db'
              ≡ Option.map
                  (λ row. if i == row.id then with_content c n row else row)
                  (t.find_by_path p q db))
  pub save-rest :
      (i : ℕ) (c : String) (n : ℕ) (db db' : Db) (row : FileRow) (j : ℕ)
      → t.save i c n db ≡ some db'
      → t.find_by_id i db ≡ some row
      → (t.last_version j db' ≡ t.last_version j db)
        × (t.owner_of j db' ≡ t.owner_of j db)
        × (t.total_size row.project_id db' + row.size ≡ t.total_size row.project_id db + n)
  -- The versions of a file go with it.
  pub delete-find :
      (i : ℕ) (db db' : Db)
      → t.delete i db ≡ some db'
      → ((j : ℕ) → t.find_by_id j db' ≡ (if i == j then none else t.find_by_id j db))
        × ((j : ℕ) → t.last_version j db' ≡ (if i == j then none else t.last_version j db))
        × ((p : ℕ) (q : String) (row : FileRow)
            → t.find_by_path p q db ≡ some row
            → t.find_by_path p q db' ≡ (if i == row.id then none else some row))
        × ((p : ℕ) (q : String) → t.find_by_path p q db ≡ none → t.find_by_path p q db' ≡ none)
  -- Files and versions come and go without the steps.
  pub has_step-insert :
      (f : FileData) (db db' : Db) (row : FileRow) (k : ℕ)
      → t.insert f db ≡ some (row, db')
      → has_step k db' ≡ has_step k db
  pub has_step-save :
      (i : ℕ) (c : String) (n : ℕ) (db db' : Db) (k : ℕ)
      → t.save i c n db ≡ some db'
      → has_step k db' ≡ has_step k db
  pub has_step-delete :
      (i : ℕ) (db db' : Db) (k : ℕ) → t.delete i db ≡ some db' → has_step k db' ≡ has_step k db
  pub has_step-insert_version :
      (v : VersionRow) (db db' : Db) (k : ℕ)
      → t.insert_version v db ≡ some db'
      → has_step k db' ≡ has_step k db
  -- What a version holds was taken by a column.
  pub fits-find_version :
      (i k : ℕ) (db : Db) (v : VersionRow) → t.find_version i k db ≡ some v → fits v.content ≡ true
  -- The pair of file and number is unique, and a version needs its file and the step that it names.
  -- It holds what its file already holds.
  pub version-succeeds :
      (v : VersionRow) (db : Db) (row : FileRow)
      → t.find_by_id v.file_id db ≡ some row
      → row.content ≡ v.content
      → IsNext (t.last_version v.file_id db) v.version
      → step_there has_step v.agent_step_id db ≡ true
      → (db' : Db) × (t.insert_version v db ≡ some db')
  pub version-find :
      (v : VersionRow) (db db' : Db) (j : ℕ)
      → t.insert_version v db ≡ some db'
      → IsNext (t.last_version v.file_id db) v.version
      → (t.find_by_id j db' ≡ t.find_by_id j db)
        × (t.owner_of j db' ≡ t.owner_of j db)
        × (t.total_size j db' ≡ t.total_size j db)
        × (t.last_version j db' ≡ (if v.file_id == j then some v else t.last_version j db))
