-- ===== src/Files/Quota.antt =====
-- Ownership and the storage limit of src/files/files.service.ts.
use bolder_vibes_backend.Common.{
  ℕ, String, ◌≡◌, ◌≢◌, inl, inr, some, arith, err, Bool-cases, Option-cases, ◌==◌, ◌∙◌, ap, ==_iff,
}
use bolder_vibes_backend.Files.Tables.{FileTables}
use bolder_vibes_backend.Files.Service.{
  FilesState, FilesError, create, update, remove, restore_version, project_not_found, access_denied,
  check_project, find_by_id,
}
use bolder_vibes_backend.Files.Versions.{
  FilesOp, op_create, op_update, op_remove, op_restore, apply_op,
}

-- The project and the user of a request.
abbrev pub project_of : FilesOp → ℕ
project_of (op_create p dto u) = p
project_of (op_update p i dto u) = p
project_of (op_remove p i u) = p
project_of (op_restore p i v u) = p

abbrev pub user_of : FilesOp → ℕ
user_of (op_create p dto u) = u
user_of (op_update p i dto u) = u
user_of (op_remove p i u) = u
user_of (op_restore p i v u) = u

module _ {Db : Type 0} (t : FileTables Db) (compute_diff : String → String → String → String)
    (number_text : ℕ → String) where
  not_owner :
      (p user_id : ℕ) (s : FilesState Db)
      → t.owner_of p s.db ≢ some user_id
      → (e : FilesError) × (check_project t compute_diff number_text p user_id s ≡ (err e, s))
  unfolding check_project
  not_owner p user_id s other = elim (Option-cases (t.owner_of p s.db)) [
    | inl missing ↦ (project_not_found, ground arith)
    | inr (owner, known) ↦ elim (Bool-cases (owner == user_id)) [
      | inl same ↦ absurd (other (known ∙ ap some ((==_iff owner user_id).0 same)))
      | inr differs ↦ (access_denied, ground arith)
    ]
  ]

  -- What each request does first.
  stopped :
      (op : FilesOp) (s : FilesState Db) (e : FilesError)
      → check_project t compute_diff number_text (project_of op) (user_of op) s ≡ (err e, s)
      → apply_op t compute_diff number_text op s ≡ s
  unfolding apply_op create update remove restore_version find_by_id
  stopped (op_create p dto u) s e refused = ground arith
  stopped (op_update p i dto u) s e refused = ground arith
  stopped (op_remove p i u) s e refused = ground arith
  stopped (op_restore p i v u) s e refused = ground arith

  -- A request of a user who does not own the project changes nothing: no row, no event, no preview.
  pub apply_op-outsider :
      (op : FilesOp) (s : FilesState Db)
      → t.owner_of (project_of op) s.db ≢ some (user_of op)
      → apply_op t compute_diff number_text op s ≡ s
  apply_op-outsider op s other =
      let (e, refused) = not_owner (project_of op) (user_of op) s other in stopped op s e refused
