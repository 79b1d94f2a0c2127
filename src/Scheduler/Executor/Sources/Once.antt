-- ===== src/Scheduler/Executor/Sources/Once.antt =====
-- crates/core/src/scheduler/executor.rs: a reseed task scans a downloader once.
use pt_reseeder.Base.{
  ℕ, ◌≡◌, refl, sym, false, ◌||◌, ◌==◌, ==_iff, Option, none, some, List, [], ◌∷◌, ◌++◌, arith,
  Bool-cases, Option-cases, subst, inl, inr,
}
use pt_reseeder.Base.Text.{codes, text_eq}
use pt_reseeder.Error.{CoreError, Result}
use pt_reseeder.Error.Results.{Result-cases}
use pt_reseeder.Scheduler.Executor.Sources.{
  FolderRow, Sources, has_id, note_scanned, add_source, collect_folder, collect_folders,
}

-- No id twice.
abbrev pub DistinctIds : List ℕ → Type 0
DistinctIds [] = Unit
DistinctIds (id ∷ ids) = (has_id id ids ≡ false) × DistinctIds ids

has_id-append : (id x : ℕ) (ids : List ℕ) → has_id id (ids ++ x ∷ []) ≡ (has_id id ids || x == id)
has_id-append id x [] = ground arith
has_id-append id x (y ∷ ys) = ground (arith, has_id-append id x ys)

append-DistinctIds :
    (ids : List ℕ) (x : ℕ) → has_id x ids ≡ false → DistinctIds ids → DistinctIds (ids ++ x ∷ [])
append-DistinctIds [] x n d = (refl, tt)
append-DistinctIds (y ∷ ys) x n (fresh, d) =
    let apart : (y == x) ≡ false = ground (arith, n) in
    let later : has_id x ys ≡ false = ground (arith, n) in
    (
      ground (arith, has_id-append y x ys, fresh, apart, ==_iff y x, ==_iff x y),
      append-DistinctIds ys x later d,
    )

add_source-DistinctIds :
    (id : ℕ) (s : Sources)
    → DistinctIds s.source_downloader_ids
    → DistinctIds (add_source id s).source_downloader_ids
unfolding add_source
add_source-DistinctIds id s d = elim (Bool-cases (has_id id s.source_downloader_ids)) [
  | inl b ↦ rw (b, add_source) d
  | inr b ↦ rw (b, add_source) (append-DistinctIds s.source_downloader_ids id b d)
]

module _ (get_folder : ℕ → Result (Option FolderRow))
    (update_folder_scanned : ℕ → Option CoreError) where
  note_scanned-ids :
      (id : ℕ) (s : Sources)
      → (note_scanned get_folder update_folder_scanned id s).0.source_downloader_ids
        ≡ s.source_downloader_ids
  unfolding note_scanned
  note_scanned-ids id s = ground arith

  noted-DistinctIds :
      (id : ℕ) (s : Sources)
      → DistinctIds s.source_downloader_ids
      → DistinctIds (note_scanned get_folder update_folder_scanned id s).0.source_downloader_ids
  noted-DistinctIds id s d = subst DistinctIds (sym (note_scanned-ids id s)) d

  collect_folder-DistinctIds :
      (id : ℕ) (folder : FolderRow) (s : Sources)
      → DistinctIds s.source_downloader_ids
      → DistinctIds
          (collect_folder get_folder update_folder_scanned id folder s).0.source_downloader_ids
  unfolding collect_folder
  collect_folder-DistinctIds id folder s d = elim (Bool-cases folder.enabled) [
    | inr b ↦ rw b d
    | inl b ↦ elim (Bool-cases (text_eq folder.scan_mode (codes "local"))) [
      | inl l ↦
          rw (b, l)
            (noted-DistinctIds id (record s { scan_folders = s.scan_folders ++ folder.path ∷ [] })
              d)
      | inr l ↦ elim (Bool-cases (text_eq folder.scan_mode (codes "downloader"))) [
        | inr m ↦ rw (b, l, m) d
        | inl m ↦ elim (Option-cases folder.downloader_id) [
          | inl n ↦ rw (b, l, m, n) d
          | inr (x, n) ↦
              rw (b, l, m, n) (noted-DistinctIds id (add_source x s) (add_source-DistinctIds x s d))
        ]
      ]
    ]
  ]

  -- The folders of a task add each downloader that they name once, and none that the task has already,
  -- also where the collection fails half way.
  pub collect_folders-DistinctIds :
      (ids : List ℕ) (s : Sources)
      → DistinctIds s.source_downloader_ids
      → DistinctIds (collect_folders get_folder update_folder_scanned ids s).0.source_downloader_ids
  unfolding collect_folders
  collect_folders-DistinctIds [] s d = d
  collect_folders-DistinctIds (id ∷ ids) s d = elim (Result-cases (get_folder id)) [
    | inr (e, y) ↦ rw (y, DistinctIds) d
    | inl (none, y) ↦ rw (y, DistinctIds) (collect_folders-DistinctIds ids s d)
    | inl (some folder, y) ↦
        let (s', answer) = collect_folder get_folder update_folder_scanned id folder s in
        let d' = collect_folder-DistinctIds id folder s d in
        elim (Result-cases answer) [
          | inr (e, z) ↦ rw (y, z, DistinctIds) d'
          | inl (v, z) ↦ rw (y, z, DistinctIds) (collect_folders-DistinctIds ids s' d')
        ]
  ]
