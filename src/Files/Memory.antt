-- ===== src/Files/Memory.antt =====
-- Tables in memory for src/files, which keep the promises of the database.
use mathlib.Core.Option
use mathlib.Core.Option.{some-injective}
use bolder_vibes_backend.Common.{
  ℕ, zero, suc, ◌+◌, ◌<◌, String, ◌≡◌, refl, sym, ap, Bool, true, false, not, ◌&&◌, Option, none,
  some, arith, ◌==◌, ◌=s=◌, ==_iff, ==_refl, eq_iff, ltb, if◌then◌else◌, is_some, Bool-cases, inl,
  inr, subst,
}
use bolder_vibes_backend.Files.Tables.{
  FileRow, FileData, VersionRow, FileTables, FileLaws, row_of, with_content,
}

-- Rows and newest versions stand below `next`, and `index` says where a path may stand.
pub record Memory : Type 0 where
  pub owners : ℕ → Option ℕ
  pub rows : ℕ → Option FileRow
  pub index : ℕ → String → ℕ
  pub next : ℕ
  pub newest : ℕ → Option VersionRow
  pub history : ℕ → ℕ → Option VersionRow

abbrev numbered : ℕ → FileRow → FileRow
numbered i row = record row { id = i }

abbrev row_at : ℕ → Memory → Option FileRow
row_at j db = if ltb j db.next then Option.map (numbered j) (db.rows j) else none

abbrev version_at : ℕ → Memory → Option VersionRow
version_at j db = if ltb j db.next then db.newest j else none

abbrev stands_at : ℕ → String → Option FileRow → Option FileRow
stands_at p q none = none
stands_at p q (some row) = if (row.project_id == p) && (row.path =s= q) then some row else none

abbrev path_at : ℕ → String → Memory → Option FileRow
path_at p q db = stands_at p q (row_at (db.index p q) db)

-- What a row counts for a project.
abbrev size_in : ℕ → Option FileRow → ℕ
size_in p none = 0
size_in p (some row) = if row.project_id == p then row.size else 0

pub sum_below : ℕ → (ℕ → ℕ) → ℕ
sum_below zero f = 0
sum_below (suc n) f = sum_below n f + f n

sum-same : (n : ℕ) (f g : ℕ → ℕ) → ((j : ℕ) → j < n → f j ≡ g j) → sum_below n f ≡ sum_below n g
unfolding sum_below
sum-same zero f g h = refl
sum-same (suc n) f g h = omega (arith, sum-same n f g (λ j b. h j (omega arith)), h n (omega arith))

-- One value changes.
sum-change :
    (n i : ℕ) (f g : ℕ → ℕ)
    → i < n
    → ((j : ℕ) → (i == j) ≡ false → f j ≡ g j)
    → sum_below n g + f i ≡ sum_below n f + g i
unfolding sum_below
sum-change zero i f g b h = absurd (omega arith)
sum-change (suc n) i f g b h = elim (Bool-cases (i == n)) [
  | inl e ↦
      let it = (==_iff i n).0 e in
      let below = sum-same n f g (λ j c. h j (ground arith)) in
      omega (arith, below, ap f it, ap g it)
  | inr ne ↦ omega (arith, h n ne, sum-change n i f g (ground arith) h)
]

abbrev inserted : FileData → Memory → Memory
inserted f db = record db {
  rows = λ j. if db.next == j then some (row_of db.next f) else db.rows j;
  index = λ p q. if (f.project_id == p) && (f.path =s= q) then db.next else db.index p q;
  next = db.next + 1;
  newest = λ j. if db.next == j then none else db.newest j;
}

abbrev saved : ℕ → String → ℕ → Memory → Memory
saved i c n db = record db {
  rows = λ j. if i == j then Option.map (with_content c n) (db.rows j) else db.rows j;
}

abbrev deleted : ℕ → Memory → Memory
deleted i db = record db {
  rows = λ j. if i == j then none else db.rows j;
  newest = λ j. if i == j then none else db.newest j;
}

abbrev versioned : VersionRow → Memory → Memory
versioned v db = record db {
  newest = λ j. if v.file_id == j then some v else db.newest j;
  history = λ j k. if (v.file_id == j) && (v.version == k) then some v else db.history j k;
}

abbrev insert_row : FileData → Memory → Option (FileRow × Memory)
insert_row f db =
    if is_some (db.owners f.project_id) && not (is_some (path_at f.project_id f.path db))
    then some (row_of db.next f, inserted f db)
    else none

abbrev save_row : ℕ → String → ℕ → Memory → Option Memory
save_row i c n db = if is_some (row_at i db) then some (saved i c n db) else none

abbrev delete_row : ℕ → Memory → Option Memory
delete_row i db = if is_some (row_at i db) then some (deleted i db) else none

abbrev add_version : VersionRow → Memory → Option Memory
add_version v db = if is_some (row_at v.file_id db) then some (versioned v db) else none

abbrev pub memory : FileTables Memory
memory = record {
  owner_of = λ p db. db.owners p;
  find_by_id = row_at;
  find_by_path = path_at;
  total_size = λ p db. sum_below db.next (λ j. size_in p (row_at j db));
  insert = insert_row;
  save = save_row;
  delete = delete_row;
  last_version = version_at;
  find_version = λ i k db. db.history i k;
  insert_version = add_version;
}

from_if :
    {A : Type 0} (b : Bool) (x y : A) → (if b then some x else none) ≡ some y → (b ≡ true) × (x ≡ y)
from_if true x y e = (refl, some-injective _ _ e)
from_if false x y e = absurd (ground arith)

matches : (a p : ℕ) (b q : String) → ((a == p) && (b =s= q)) ≡ true → (a ≡ p) × (b ≡ q)
matches a p b q h = ((==_iff a p).0 (ground arith), (eq_iff b q).0 (ground arith))

stands-at :
    (p : ℕ) (q : String) (o : Option FileRow) (row : FileRow)
    → stands_at p q o ≡ some row
    → (o ≡ some row) × (row.project_id ≡ p) × (row.path ≡ q)
stands-at p q none row e = absurd (ground arith)
stands-at p q (some r) row e =
    let (fits, same) = from_if ((r.project_id == p) && (r.path =s= q)) r row e in
    let (a, b) = matches r.project_id p r.path q fits in
    (ap some same, subst (λ z. z.project_id ≡ p) same a, subst (λ z. z.path ≡ q) same b)

numbered_id : (j : ℕ) (db : Memory) (row : FileRow) → row_at j db ≡ some row → row.id ≡ j
numbered_id j db row e = ground arith

path-id :
    (p : ℕ) (q : String) (db : Memory) (row : FileRow)
    → path_at p q db ≡ some row
    → (row_at row.id db ≡ some row) × (row.project_id ≡ p) × (row.path ≡ q)
path-id p q db row e =
    let (there, a, b) = stands-at p q (row_at (db.index p q) db) row e in
    (
      subst (λ k. row_at k db ≡ some row) (sym (numbered_id (db.index p q) db row there)) there,
      a,
      b,
    )

row-inserted :
    (f : FileData) (db : Memory) (j : ℕ)
    → row_at j (inserted f db) ≡ (if db.next == j then some (row_of db.next f) else row_at j db)
row-inserted f db j = ground arith

path-inserted :
    (f : FileData) (db : Memory) (p : ℕ) (q : String)
    → path_at p q (inserted f db)
      ≡ (if (f.project_id == p) && (f.path =s= q) then some (row_of db.next f) else path_at p q db)
path-inserted f db p q = ground arith

row-saved :
    (i : ℕ) (c : String) (n : ℕ) (db : Memory) (j : ℕ)
    → row_at j (saved i c n db)
      ≡ (if i == j then Option.map (with_content c n) (row_at j db) else row_at j db)
row-saved i c n db j = ground arith

path-saved :
    (i : ℕ) (c : String) (n : ℕ) (db : Memory) (p : ℕ) (q : String)
    → path_at p q (saved i c n db)
      ≡ Option.map (λ row. if i == row.id then with_content c n row else row) (path_at p q db)
path-saved i c n db p q = ground arith

row-deleted :
    (i : ℕ) (db : Memory) (j : ℕ) → row_at j (deleted i db) ≡ (if i == j then none else row_at j db)
row-deleted i db j = ground arith

path-deleted :
    (i : ℕ) (db : Memory) (p : ℕ) (q : String) (row : FileRow)
    → path_at p q db ≡ some row
    → path_at p q (deleted i db) ≡ (if i == row.id then none else some row)
path-deleted i db p q row e =
    let (there, a, b) = stands-at p q (row_at (db.index p q) db) row e in
    let k = numbered_id (db.index p q) db row there in
    ground (arith, row-deleted i db (db.index p q))

path-not_there :
    (i : ℕ) (db : Memory) (p : ℕ) (q : String)
    → path_at p q db ≡ none
    → path_at p q (deleted i db) ≡ none
path-not_there i db p q e = ground arith

version-deleted :
    (i : ℕ) (db : Memory) (j : ℕ)
    → version_at j (deleted i db) ≡ (if i == j then none else version_at j db)
version-deleted i db j = ground arith

version-versioned :
    (v : VersionRow) (db : Memory) (j : ℕ)
    → is_some (row_at v.file_id db) ≡ true
    → version_at j (versioned v db) ≡ (if v.file_id == j then some v else version_at j db)
version-versioned v db j there = ground arith

-- The place of the row that is saved is among the rows.
below_next : (i : ℕ) (db : Memory) (row : FileRow) → row_at i db ≡ some row → i < db.next
below_next i db row there = ground arith

plus_one : (n : ℕ) → n + 1 ≡ suc n
plus_one n = omega arith

sum_below-suc : (n : ℕ) (f : ℕ → ℕ) → sum_below (n + 1) f ≡ sum_below n f + f n
unfolding sum_below
sum_below-suc n f = ap (λ k. sum_below k f) (plus_one n)

total-inserted :
    (f : FileData) (db : Memory) (p : ℕ)
    → sum_below (db.next + 1) (λ k. size_in p (row_at k (inserted f db)))
      ≡ sum_below db.next (λ k. size_in p (row_at k db)) + (if f.project_id == p then f.size else 0)
unfolding sum_below
total-inserted f db p =
    let before =
      sum-same db.next (λ k. size_in p (row_at k (inserted f db))) (λ k. size_in p (row_at k db))
        (λ j b. rw (row-inserted f db j) (ground arith)) in
    let new : size_in p (row_at db.next (inserted f db))
        ≡ (if f.project_id == p then f.size else 0) =
      rw (row-inserted f db db.next, ==_refl db.next) refl in
    let step = sum_below-suc db.next (λ k. size_in p (row_at k (inserted f db))) in
    omega (arith, before, new, step)

total-saved :
    (i : ℕ) (c : String) (n : ℕ) (db : Memory) (row : FileRow)
    → row_at i db ≡ some row
    → sum_below db.next (λ k. size_in row.project_id (row_at k (saved i c n db))) + row.size
      ≡ sum_below db.next (λ k. size_in row.project_id (row_at k db)) + n
total-saved i c n db row there =
    let change =
      sum-change db.next i (λ k. size_in row.project_id (row_at k db))
        (λ k. size_in row.project_id (row_at k (saved i c n db))) (below_next i db row there)
        (λ j ne. rw (row-saved i c n db j, ne) refl) in
    let old : size_in row.project_id (row_at i db) ≡ row.size =
      rw (there, ==_refl row.project_id) refl in
    let new : size_in row.project_id (row_at i (saved i c n db)) ≡ n =
      rw (row-saved i c n db i, ==_refl i, there, ==_refl row.project_id) refl in
    omega (arith, change, old, new)

pub memory-FileLaws : FileLaws memory
memory-FileLaws = record {
  fits = λ c. true;
  has_step = λ k db. true;
  has_step-insert = λ f db db' row k e. refl;
  has_step-save = λ i c n db db' k e. refl;
  has_step-delete = λ i db db' k e. refl;
  has_step-insert_version = λ v db db' k e. refl;
  fits-find_version = λ i k db v e. refl;
  path-id = path-id;
  insert-succeeds = λ f db free known. (row_of db.next f, inserted f db, rw (free, known) refl);
  insert-find = λ f db db' row e.
      let (fits, same) = from_if _ (row_of db.next f, inserted f db) (row, db') e in
      let a : row_of db.next f ≡ row = ap (λ z. z.0) same in
      let b : inserted f db ≡ db' = ap (λ z. z.1) same in
      rw (← a, ← b) (refl, ground arith, row-inserted f db, path-inserted f db);
  insert-rest = λ f db db' row j e.
      let (fits, same) = from_if _ (row_of db.next f, inserted f db) (row, db') e in
      let b : inserted f db ≡ db' = ap (λ z. z.1) same in
      rw (← b) (ground arith, refl, total-inserted f db j);
  save-succeeds = λ i c n db row e fit. (saved i c n db, rw e refl);
  save-find = λ i c n db db' e.
      let (_, same) = from_if (is_some (row_at i db)) (saved i c n db) db' e in
      (
        λ j.
            subst
              (λ z.
                row_at j z
                ≡ (if i == j then Option.map (with_content c n) (row_at j db) else row_at j db))
              same (row-saved i c n db j),
        λ p q.
            subst
              (λ z.
                path_at p q z
                ≡ Option.map (λ row. if i == row.id then with_content c n row else row)
                    (path_at p q db))
              same (path-saved i c n db p q),
      );
  save-rest = λ i c n db db' row j e there.
      let (_, same) = from_if (is_some (row_at i db)) (saved i c n db) db' e in
      rw (← same) (refl, refl, total-saved i c n db row there);
  delete-find = λ i db db' e.
      let (_, same) = from_if (is_some (row_at i db)) (deleted i db) db' e in
      rw (← same) (row-deleted i db, version-deleted i db, path-deleted i db, path-not_there i db);
  version-succeeds = λ v db row there same next known. (versioned v db, rw there refl);
  version-find = λ v db db' j e next.
      let (there, same) = from_if (is_some (row_at v.file_id db)) (versioned v db) db' e in
      rw (← same) (refl, refl, refl, version-versioned v db j there);
}

pub memory-fits : (c : String) → memory-FileLaws.fits c ≡ true
unfolding memory-FileLaws
memory-fits c = refl

pub memory-has_step : (k : ℕ) (db : Memory) → memory-FileLaws.has_step k db ≡ true
unfolding memory-FileLaws
memory-has_step k db = refl
