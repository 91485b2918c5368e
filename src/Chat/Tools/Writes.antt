-- ===== src/Chat/Tools/Writes.antt =====
-- Writes of the tools of src/conversations/chat-ai.service.ts, and any sequence of tool calls.
use bolder_vibes_backend.Common.{
  ℕ, String, ◌≡◌, refl, sym, ap, ◌∙◌, inl, inr, none, some, List, arith, ==_refl, Option-cases,
  eq_refl,
}
use bolder_vibes_backend.Files.Tables.{FileRow, FileTables, FileLaws, with_content, FileData}
use bolder_vibes_backend.Files.Service.{byte_length}
use bolder_vibes_backend.Chat.Tools.{
  FileContext, ToolState, find_entry, replace_entry, push_entry, drop_entry, synced,
}
use bolder_vibes_backend.Chat.Tools.Cache.{Tracks, no_entry, other_row, Tracks-at}
use bolder_vibes_backend.Chat.Tools.Reads.{new_entry}
use bolder_vibes_backend.Chat.Tools.Cache.Entries.{
  find-push, find-push_other, find-replace, find-replaced, replace-none, find-drop_other,
  find-dropped, drop-DistinctPaths, push-DistinctPaths, replace-DistinctPaths,
}

-- Nothing is set where there was no entry.
no_entry_after :
    (path : String) (e g : FileContext) (fs : List FileContext)
    → find_entry path fs ≡ none
    → find_entry path (replace_entry path e fs) ≡ some g
    → ⊥
no_entry_after path e g fs empty found =
    let same = ap (find_entry path) (replace-none path e fs empty) in ground arith

module _ {Db : Type 0} (t : FileTables Db) (laws : FileLaws t) (p : ℕ) where
  -- What a write of a content at a path leaves.
  abbrev pub Writes : String → String → ToolState Db → Type 0
  Writes path content s' =
      ((row : FileRow) × (t.find_by_path p path s'.db ≡ some row)
        × (row.content ≡ content)
        × (row.size ≡ byte_length content))
      × Tracks t p s'

  abbrev pub new_data : String → String → FileData
  new_data path content = record {
    project_id = p;
    path = path;
    content = content;
    mime_type = none;
    size = byte_length content;
  }

  abbrev pub entry_of : String → String → ℕ → FileContext
  entry_of path content n = record { path = path; content = content; size = n }

  abbrev pub edited : String → String → Db → ToolState Db → ToolState Db
  edited path content db' s = synced t p path (some content) (record s {
    db = db';
    context = replace_entry path (entry_of path content (byte_length content)) s.context;
  })

  abbrev pub inserted : String → String → FileRow → Db → ToolState Db → ToolState Db
  inserted path content row db' s =
      synced t p path (some content)
        (record s { db = db'; context = push_entry (entry_of path content row.size) s.context })

  abbrev pub dropped : String → Db → ToolState Db → ToolState Db
  dropped path db' s =
      synced t p path none (record s { db = db'; context = drop_entry path s.context })

  pub edited-Writes :
      (path content : String) (file : FileRow) (s : ToolState Db) (db' : Db)
      → Tracks t p s
      → t.find_by_path p path s.db ≡ some file
      → t.save file.id content (byte_length content) s.db ≡ some db'
      → Writes path content (edited path content db' s)
  edited-Writes path content file s db' h there saved =
      let (_, rows) = laws.save-find file.id content (byte_length content) s.db db' saved in
      let e = entry_of path content (byte_length content) in
      let new = with_content content (byte_length content) file in
      let now : t.find_by_path p path db' ≡ some new =
        rows p path ∙ rw (there, ==_refl file.id) refl in
      (
        (new, now, refl, refl),
        Tracks-at t laws p path s (edited path content db' s)
            (replace-DistinctPaths path e s.context refl h.distinct)
            (λ g found. (
              new,
              now,
              elim (Option-cases (find_entry path s.context)) [
                | inl empty ↦ absurd (no_entry_after path e g s.context empty found)
                | inr (f, entry) ↦
                    new_entry t laws p e g new
                      (sym (find-replaced path e f s.context refl entry) ∙ found) refl refl
              ],
            ))
            (λ q ne. find-replace path q e s.context refl ne)
            (λ q row ne old.
              rows p q ∙ rw (old, other_row t laws p path q s.db file row ne there old) refl)
            h,
      )

  pub inserted-Writes :
      (path content : String) (row : FileRow) (s : ToolState Db) (db' : Db)
      → Tracks t p s
      → t.find_by_path p path s.db ≡ none
      → t.insert (new_data path content) s.db ≡ some (row, db')
      → Writes path content (inserted path content row db' s)
  inserted-Writes path content row s db' h free added =
      let (same, _, _, rows) = laws.insert-find (new_data path content) s.db db' row added in
      let e = entry_of path content row.size in
      let now : t.find_by_path p path db' ≡ some row =
        rows p path ∙ rw (==_refl p, eq_refl path) refl in
      let size : row.size ≡ byte_length content = ap (λ z. z.size) same in
      let text : row.content ≡ content = ap (λ z. z.content) same in
      let empty = no_entry t laws p path s h free in
      (
        (row, now, text, size),
        Tracks-at t laws p path s (inserted path content row db' s)
            (push-DistinctPaths e s.context empty h.distinct)
            (λ g found. (
              row,
              now,
              new_entry t laws p e g row
                  (sym (rw (find-push path e s.context empty, eq_refl path) refl) ∙ found) refl
                  (sym text),
            ))
            (λ q ne. find-push_other q e s.context ne)
            (λ q old_row ne old. rows p q ∙ rw (==_refl p, ne) old) h,
      )

  pub dropped-Tracks :
      (path : String) (file : FileRow) (s : ToolState Db) (db' : Db)
      → Tracks t p s
      → t.find_by_path p path s.db ≡ some file
      → t.delete file.id s.db ≡ some db'
      → Tracks t p (dropped path db' s)
  dropped-Tracks path file s db' h there gone =
      let (_, _, rows, _) = laws.delete-find file.id s.db db' gone in
      let empty = find-dropped path s.context h.distinct in
      Tracks-at t laws p path s (dropped path db' s) (drop-DistinctPaths path s.context h.distinct)
        (λ g found. absurd (ground arith)) (λ q ne. find-drop_other path q s.context ne)
        (λ q row ne old.
          rows p q row old ∙ rw (other_row t laws p path q s.db file row ne there old) refl)
        h
