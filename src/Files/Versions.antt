-- ===== src/Files/Versions.antt =====
-- What the versions of src/files promise: the newest version of a file is its content.
pub mod Steps
pub mod Operations
use bolder_vibes_backend.Common.{
  ℕ, ◌+◌, String, ◌≡◌, refl, Option, none, some, List, [], ◌∷◌, arith, Result, ok, err, Bool, Bool,
  Bool, Bool, Bool, Bool, Bool, Bool, Bool,
}
use bolder_vibes_backend.Files.Tables.{FileRow, FileTables, FileLaws, VersionRow, with_content}
use bolder_vibes_backend.Files.Service.{
  FilesState, CreateFileDto, UpdateFileDto, create, update, remove, restore_version, byte_length,
  number_after,
}
use bolder_vibes_backend.Files.Versions.Steps.{Rewritten-of}
use bolder_vibes_backend.Files.Versions.Operations.{
  restore_lem, restored_message, Opened, Opened-at,
}

-- A request of the files controller, by a user.
pub data FilesOp : Type 0 where
  op_create : (p : ℕ) → CreateFileDto → (user_id : ℕ) → FilesOp
  op_update : (p file_id : ℕ) → UpdateFileDto → (user_id : ℕ) → FilesOp
  op_remove : (p file_id user_id : ℕ) → FilesOp
  op_restore : (p file_id version_id user_id : ℕ) → FilesOp

module _ {Db : Type 0} (t : FileTables Db) (compute_diff : String → String → String → String)
    (number_text : ℕ → String) where
  unfoldable pub apply_op : FilesOp → FilesState Db → FilesState Db
  apply_op (op_create p dto u) s = (create t compute_diff number_text p dto u s).1
  apply_op (op_update p i dto u) s = (update t compute_diff number_text p i dto u s).1
  apply_op (op_remove p i u) s = (remove t compute_diff number_text p i u s).1
  apply_op (op_restore p i v u) s = (restore_version t compute_diff number_text p i v u s).1

  unfoldable pub apply_ops : List FilesOp → FilesState Db → FilesState Db
  apply_ops [] s = s
  apply_ops (op ∷ ops) s = apply_ops ops (apply_op op s)

module _ {Db : Type 0} (t : FileTables Db) (laws : FileLaws t)
    (compute_diff : String → String → String → String) (number_text : ℕ → String) where
  -- For a file of a project of the user's and a version of that file, a restore succeeds: the file has
  -- that version's content, and a new version with the next number holds it too. Unlike an update it
  -- sends no event and hands nothing to the previews.
  pub restore_version_lem :
      (p i version_id user_id : ℕ) (s : FilesState Db) (row : FileRow) (v : VersionRow)
      → t.owner_of p s.db ≡ some user_id
      → t.find_by_id i s.db ≡ some row
      → row.project_id ≡ p
      → t.find_version i version_id s.db ≡ some v
      → let (answer, s') = restore_version t compute_diff number_text p i version_id user_id s in
        (answer ≡ ok (with_content v.content (byte_length v.content) row))
        × (t.find_by_id i s'.db ≡ some (with_content v.content (byte_length v.content) row))
        × ((new : VersionRow) × (t.last_version i s'.db ≡ some new)
            × (new.content ≡ v.content)
            × (new.version ≡ number_after (t.last_version i s.db)))
        × (s'.events ≡ s.events)
        × (s'.syncs ≡ s.syncs)
  restore_version_lem p i version_id user_id s row v owned there inside found =
      let o = Opened-at t laws compute_diff number_text p i user_id s row owned there inside in
      let (db1, saved) =
        laws.save-succeeds i v.content (byte_length v.content) s.db row there
          (laws.fits-find_version i version_id s.db v found) in
      let w =
        Rewritten-of t laws compute_diff number_text i v.content (byte_length v.content)
          (some row.content) row.path (restored_message t laws compute_diff number_text v) none row
          s.db db1 there refl saved in
      rw (restore_lem t laws compute_diff number_text p i version_id user_id s row v o found w)
        (refl, w.holds, (_, w.newest, refl, refl), refl, refl)
