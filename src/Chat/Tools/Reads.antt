-- ===== src/Chat/Tools/Reads.antt =====
-- Reads and writes of the tools of src/conversations/chat-ai.service.ts, in any order.
use bolder_vibes_backend.Common.{
  ℕ, String, ◌≡◌, refl, sym, ◌∙◌, subst, inl, inr, true, false, none, some, arith, ◌=s=◌, eq_iff,
  Bool-cases, Option-cases,
}
use mathlib.Core.Option.{some-injective}
use bolder_vibes_backend.Files.Tables.{FileRow, FileTables, FileLaws}
use bolder_vibes_backend.Chat.Tools.{
  FileContext, ToolState, find_entry, replace_entry, push_entry, handle_read_file,
}
use bolder_vibes_backend.Chat.Tools.Cache.{Agrees, Tracks, uncached, no_entry, Tracks-at}
use bolder_vibes_backend.Chat.Tools.Cache.Entries.{
  find_entry-path, find-push, find-push_other, find-replace, find-replaced, push-DistinctPaths,
  replace-DistinctPaths,
}

module _ {Db : Type 0} (t : FileTables Db) (laws : FileLaws t) (p : ℕ) where
  -- What a read answers, and the state that it leaves.
  abbrev pub Reads : String → ToolState Db → Type 0
  Reads path s =
      (s' : ToolState Db) × (handle_read_file t p path s
        ≡ some ((uncached t p path s.db, none), s'))
      × (s'.db ≡ s.db)
      × Tracks t p s'

  Reads-nothing :
      (path : String) (s : ToolState Db)
      → Tracks t p s
      → t.find_by_path p path s.db ≡ none
      → Reads path s
  unfolding handle_read_file
  Reads-nothing path s h missing =
      let empty = no_entry t laws p path s h missing in (s, ground arith, refl, h)

  -- The context holds the content.
  Reads-entry :
      (path : String) (s : ToolState Db) (row : FileRow) (f : FileContext)
      → Tracks t p s
      → t.find_by_path p path s.db ≡ some row
      → find_entry path s.context ≡ some f
      → (f.content =s= "") ≡ false
      → Agrees t p f row
      → Reads path s
  unfolding handle_read_file
  Reads-entry path s row f h there entry full (size, inl blank) =
      let it : (f.content =s= "") ≡ true = (eq_iff f.content "").1 blank in absurd (ground arith)
  Reads-entry path s row f h there entry full (size, inr same) = (s, ground arith, refl, h)

  -- The entry that was set is of its row.
  pub new_entry :
      (e g : FileContext) (row : FileRow)
      → some e ≡ some g
      → e.size ≡ row.size
      → e.content ≡ row.content
      → Agrees t p g row
  new_entry e g row same size content =
      subst (λ z. Agrees t p z row) (some-injective _ _ same) (size, inr content)

  -- The context holds the path alone.
  Reads-row :
      (path : String) (s : ToolState Db) (row : FileRow) (f : FileContext)
      → Tracks t p s
      → t.find_by_path p path s.db ≡ some row
      → find_entry path s.context ≡ some f
      → (f.content =s= "") ≡ true
      → Reads path s
  unfolding handle_read_file
  Reads-row path s row f h there entry blank =
      let e : FileContext = record f { content = row.content; size = row.size } in
      let s' : ToolState Db = record s { context = replace_entry f.path e s.context } in
      let at = find_entry-path path s.context f entry in
      let (_, _, same) = laws.path-id p path s.db row there in
      (
        s',
        ground arith,
        refl,
        Tracks-at t laws p path s s' (replace-DistinctPaths f.path e s.context refl h.distinct)
            (λ g found. (
              row,
              there,
              new_entry e g row
                  (sym (
                      subst (λ z. find_entry z (replace_entry f.path e s.context) ≡ some e) at
                        (find-replaced f.path e f s.context refl
                          (subst (λ z. find_entry z s.context ≡ some f) (sym at) entry)))
                    ∙ found)
                  refl refl,
            ))
            (λ q ne.
              find-replace f.path q e s.context refl (subst (λ z. (z =s= q) ≡ false) (sym at) ne))
            (λ q r ne old. old) h,
      )

  Reads-new :
      (path : String) (s : ToolState Db) (row : FileRow)
      → Tracks t p s
      → t.find_by_path p path s.db ≡ some row
      → find_entry path s.context ≡ none
      → Reads path s
  unfolding handle_read_file
  Reads-new path s row h there empty =
      let (_, _, at) = laws.path-id p path s.db row there in
      let e : FileContext = record { path = row.path; content = row.content; size = row.size } in
      let s' : ToolState Db = record s { context = push_entry e s.context } in
      (
        s',
        ground arith,
        refl,
        Tracks-at t laws p path s s'
            (push-DistinctPaths e s.context
              (subst (λ z. find_entry z s.context ≡ none) (sym at) empty) h.distinct)
            (λ g found. (
              row,
              there,
              new_entry e g row
                  (sym (rw (find-push path e s.context empty, (eq_iff row.path path).1 at) refl)
                    ∙ found)
                  refl refl,
            ))
            (λ q ne. find-push_other q e s.context (subst (λ z. (z =s= q) ≡ false) (sym at) ne))
            (λ q r ne old. old) h,
      )

  -- From a context that agrees with the database, a read answers with the row as the database has it,
  -- or that there is none, and writes nothing; the context agrees again.
  pub read_file_lem : (path : String) (s : ToolState Db) → Tracks t p s → Reads path s
  read_file_lem path s h = elim (Option-cases (t.find_by_path p path s.db)) [
    | inl missing ↦ Reads-nothing path s h missing
    | inr (row, there) ↦ elim (Option-cases (find_entry path s.context)) [
      | inl empty ↦ Reads-new path s row h there empty
      | inr (f, entry) ↦ elim (Bool-cases (f.content =s= "")) [
        | inl blank ↦ Reads-row path s row f h there entry blank
        | inr full ↦
            let (r, at, fits) = h.agrees path f entry in Reads-entry path s r f h at entry full fits
      ]
    ]
  ]
