-- ===== src/Files/Versions/Steps.antt =====
-- The writes that the operations of src/files/files.service.ts share, and the versions they leave.
use mathlib.Core.Option.{some-injective}
use bolder_vibes_backend.Common.{
  ℕ, ◌+◌, String, ◌≡◌, refl, sym, ap, ◌∙◌, subst, inl, inr, false, Option, none, some, arith, ◌==◌,
  ==_iff, ==_refl, Bool-cases, true,
}
use bolder_vibes_backend.Files.Tables.{
  FileRow, FileData, VersionRow, FileTables, FileLaws, IsNext, with_content, row_of, step_there,
}
use bolder_vibes_backend.Files.Service.{next_number, version_row, number_after}

module _ {Db : Type 0} (t : FileTables Db) where
  -- Every file that has versions holds what the newest of them holds.
  abbrev pub Current : Db → Type 0
  Current db =
      (j : ℕ) (v : VersionRow)
      → t.last_version j db ≡ some v
      → (row : FileRow) × (t.find_by_id j db ≡ some row) × (row.content ≡ v.content)

pub number_after-IsNext : (last : Option VersionRow) → IsNext last (number_after last)
number_after-IsNext none = omega arith
number_after-IsNext (some v) = omega arith

module _ {Db : Type 0} (t : FileTables Db) (laws : FileLaws t) where
  -- A version that is added holds the content that its file has by then.
  Current-version :
      (v : VersionRow) (row : FileRow) (db db' : Db)
      → t.find_by_id v.file_id db ≡ some row
      → row.content ≡ v.content
      → IsNext (t.last_version v.file_id db) v.version
      → t.insert_version v db ≡ some db'
      → ((j : ℕ) (w : VersionRow)
          → (v.file_id == j) ≡ false
          → t.last_version j db ≡ some w
          → (r : FileRow) × (t.find_by_id j db ≡ some r) × (r.content ≡ w.content))
      → Current t db'
  Current-version v row db db' there same next wrote others j w last =
      let (found, _, _, newest) = laws.version-find v db db' j wrote next in
      elim (Bool-cases (v.file_id == j)) [
        | inl e ↦
            let it : v.file_id ≡ j = (==_iff v.file_id j).0 e in
            let now : t.last_version j db' ≡ some v = ground arith in
            (
              row,
              found ∙ subst (λ k. t.find_by_id k db ≡ some row) it there,
              same ∙ ap (λ u. u.content) (some-injective _ _ (sym now ∙ last)),
            )
        | inr ne ↦ rw found (others j w ne (ground arith))
      ]

  module _ (compute_diff : String → String → String → String) (number_text : ℕ → String) where
    -- The version that `createVersion` adds to a file in a database.
    abbrev pub new_version :
        ℕ → String → Option String → String → Option String → Option ℕ → Db → VersionRow
    new_version i c old path message step db =
        version_row t compute_diff number_text i c old path message step (next_number t i db)

    -- A file is saved and gets a version: both writes succeed, the file holds the content, and what
    -- held of the versions still holds.
    pub record Rewritten (i : ℕ) (c : String) (n : ℕ) (old : Option String) (path : String)
        (message : Option String) (step : Option ℕ) (row : FileRow) (db : Db) : Type 0 where
      pub saved_db : Db
      pub db' : Db
      pub saved : t.save i c n db ≡ some saved_db
      pub added :
          t.insert_version (new_version i c old path message step saved_db) saved_db ≡ some db'
      pub holds : t.find_by_id i db' ≡ some (with_content c n row)
      pub newest : t.last_version i db' ≡ some (new_version i c old path message step db)
      pub total : t.total_size row.project_id db' + row.size ≡ t.total_size row.project_id db + n
      pub current : Current t db → Current t db'

    step_there-save :
        (step : Option ℕ) (i : ℕ) (c : String) (n : ℕ) (db db' : Db)
        → t.save i c n db ≡ some db'
        → step_there laws.has_step step db ≡ true
        → step_there laws.has_step step db' ≡ true
    step_there-save none i c n db db' saved h = refl
    step_there-save (some k) i c n db db' saved h = laws.has_step-save i c n db db' k saved ∙ h

    step_there-insert :
        (step : Option ℕ) (f : FileData) (db db' : Db) (row : FileRow)
        → t.insert f db ≡ some (row, db')
        → step_there laws.has_step step db ≡ true
        → step_there laws.has_step step db' ≡ true
    step_there-insert none f db db' row inserted h = refl
    step_there-insert (some k) f db db' row inserted h =
        laws.has_step-insert f db db' row k inserted ∙ h

    -- A file that is saved gets its version.
    pub Rewritten-of :
        (i : ℕ) (c : String) (n : ℕ) (old : Option String) (path : String) (message : Option String)
        (step : Option ℕ) (row : FileRow) (db db1 : Db)
        → t.find_by_id i db ≡ some row
        → step_there laws.has_step step db ≡ true
        → t.save i c n db ≡ some db1
        → Rewritten i c n old path message step row db
    Rewritten-of i c n old path message step row db db1 there known saved =
        let w = new_version i c old path message step db1 in
        let (find, _) = laws.save-find i c n db db1 saved in
        let (kept, _, total) = laws.save-rest i c n db db1 row i saved there in
        let now : t.find_by_id i db1 ≡ some (with_content c n row) =
          rw (find i, ==_refl i, there) refl in
        let next = number_after-IsNext (t.last_version i db1) in
        let (db2, added) =
          laws.version-succeeds w db1 (with_content c n row) now refl next
            (step_there-save step i c n db db1 saved known) in
        let (found, _, _, newest) = laws.version-find w db1 db2 i added next in
        let (_, _, sum, _) = laws.version-find w db1 db2 row.project_id added next in
        record {
          saved_db = db1;
          db' = db2;
          saved = saved;
          added = added;
          holds = found ∙ now;
          newest = rw (newest, ==_refl i, kept) refl;
          total = rw sum total;
          current = λ h.
              Current-version w (with_content c n row) db1 db2 now refl next added (λ j v ne last.
                rw (find j, ne)
                  (h j v (sym (laws.save-rest i c n db db1 row j saved there).0 ∙ last)));
        }

    -- A file is inserted and gets its first version.
    pub record Inserted (f : FileData) (message : Option String) (step : Option ℕ) (db : Db)
        : Type 0 where
      pub row : FileRow
      pub inserted_db : Db
      pub db' : Db
      pub inserted : t.insert f db ≡ some (row, inserted_db)
      pub added :
          t.insert_version
            (new_version row.id f.content none f.path message step inserted_db)
            inserted_db
          ≡ some db'
      pub total : t.total_size f.project_id db' ≡ t.total_size f.project_id db + f.size
      pub holds : t.find_by_id row.id db' ≡ some (row_of row.id f)
      pub newest :
          t.last_version row.id db'
          ≡ some
              (version_row t compute_diff number_text row.id f.content none f.path message step 1)
      pub current : Current t db → Current t db'

    pub Inserted-of :
        (f : FileData) (message : Option String) (step : Option ℕ) (db db1 : Db) (row : FileRow)
        → step_there laws.has_step step db ≡ true
        → t.insert f db ≡ some (row, db1)
        → Inserted f message step db
    Inserted-of f message step db db1 row known inserted =
        let w = new_version row.id f.content none f.path message step db1 in
        let (same, fresh, find, _) = laws.insert-find f db db1 row inserted in
        let now : t.find_by_id row.id db1 ≡ some row = rw (find row.id, ==_refl row.id) refl in
        let next = number_after-IsNext (t.last_version row.id db1) in
        let (db2, added) =
          laws.version-succeeds w db1 row now (ap (λ u. u.content) same) next
            (step_there-insert step f db db1 row inserted known) in
        let (found, _, _, newest) = laws.version-find w db1 db2 row.id added next in
        let (_, _, sum, _) = laws.version-find w db1 db2 f.project_id added next in
        let (kept, _, _) = laws.insert-rest f db db1 row row.id inserted in
        let (_, _, grown) = laws.insert-rest f db db1 row f.project_id inserted in
        record {
          row = row;
          inserted_db = db1;
          db' = db2;
          inserted = inserted;
          added = added;
          total = sum ∙ grown ∙ rw (==_refl f.project_id) refl;
          holds = found ∙ now ∙ ap some same;
          newest = rw (newest, ==_refl row.id, kept, fresh) refl;
          current = λ h.
              Current-version w row db1 db2 now (ap (λ u. u.content) same) next added
                (λ j v ne last.
                  rw (find j, ne)
                    (h j v (sym (laws.insert-rest f db db1 row j inserted).0 ∙ last)));
        }

    pub Current-delete :
        (i : ℕ) (db db' : Db) → t.delete i db ≡ some db' → Current t db → Current t db'
    Current-delete i db db' gone h j v last =
        let (find, versions, _, _) = laws.delete-find i db db' gone in
        elim (Bool-cases (i == j)) [
          | inl e ↦ absurd (ground (arith, versions j))
          | inr ne ↦ rw (find j, ne) (h j v (ground (arith, versions j)))
        ]
