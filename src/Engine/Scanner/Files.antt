-- ===== src/Engine/Scanner/Files.antt =====
-- crates/core/src/engine/scanner.rs: no file of the directory that parses is left out.
use pt_reseeder.Base.{
  ℕ, ◌+◌, ◌≡◌, ◌∙◌, refl, sym, ap, subst, Bool, true, All, Option, none, some, List, [], ◌∷◌, arith,
  Bool-cases, inl, inr,
}
use pt_reseeder.Base.Text.{Text, contains_text}
use pt_reseeder.Error.{Result, ok, err}
use pt_reseeder.Error.Results.{Result-cases}
use pt_reseeder.Engine.Stats.{ReseedStats, add_to}
use pt_reseeder.Engine.Scanner.{Parsed, Client, Loop}
use pt_reseeder.Engine.Scanner.Materialize.{keep_parsed}
use pt_reseeder.Engine.Scanner.Materialize.Seen.{info_hashes}
use pt_reseeder.Engine.Scanner.Materialize.Complete.{Sees, keep_parsed-Sees, keep_parsed-own}
use pt_reseeder.Torrent.Parser.{TorrentMeta}
use pt_reseeder.Engine.Scanner.Sources.{empty_loop, parse_file, parse_dir, scan_dir}

-- A file that parses has its info hash among those seen.
abbrev Kept : Loop → Result TorrentMeta → Type 0
Kept s (ok meta) = Sees s meta.info_hash
Kept s (err e) = Unit

abbrev pub DirKept : Client → Loop → Option (Result (List Text)) → Type 0
DirKept client s none = Unit
DirKept client s (some (err e)) = Unit
DirKept client s (some (ok paths)) = All (λ path. Kept s (parse_file client path)) paths

-- A torrent file that parses is among the torrents, by its info hash.
abbrev pub Taken : List Parsed → Result TorrentMeta → Type 0
Taken ps (ok meta) = contains_text (info_hashes ps) meta.info_hash ≡ true
Taken ps (err e) = Unit

-- All files of the directory that parse are among the torrents, where there is a directory.
abbrev pub DirTaken : Client → List Parsed → Option (Result (List Text)) → Type 0
DirTaken client ps none = Unit
DirTaken client ps (some (err e)) = Unit
DirTaken client ps (some (ok paths)) = All (λ path. Taken ps (parse_file client path)) paths

module _ (client : Client) (s s' : Loop) (seen : s'.seen_info_hashes ≡ info_hashes s'.parsed)
    (grows : (t : Text) → Sees s t → Sees s' t) where
  Kept-Taken : (parsed : Result TorrentMeta) → Kept s parsed → Taken s'.parsed parsed
  Kept-Taken (ok meta) h =
      subst (λ hashes. contains_text hashes meta.info_hash ≡ true) seen (grows meta.info_hash h)
  Kept-Taken (err e) h = tt

  pub DirKept-Taken :
      (dir : Option (Result (List Text))) → DirKept client s dir → DirTaken client s'.parsed dir
  DirKept-Taken none h = tt
  DirKept-Taken (some (err e)) h = tt
  DirKept-Taken (some (ok paths)) h = files paths h
    where
      files :
          (paths : List Text)
          → All (λ path. Kept s (parse_file client path)) paths
          → All (λ path. Taken s'.parsed (parse_file client path)) paths
      files [] all = tt
      files (path ∷ paths) (h, all) = (Kept-Taken (parse_file client path) h, files paths all)

module _ (cancelled : ℕ → Bool) (closed : ℕ → Bool) (client : Client)
    (find_existing : List Text → Result (List Text)) where
  parse_dir-Sees :
      (clock : ℕ) (paths : List Text) (s : Loop) (stats : ReseedStats) (t : Text)
      → Sees s t
      → Sees (parse_dir cancelled closed client find_existing clock paths s stats).0 t
  unfolding parse_dir
  parse_dir-Sees clock [] s stats t h = h
  parse_dir-Sees clock (path ∷ paths) s stats t h =
      let stats' : ReseedStats = record stats { scanned = add_to stats.scanned 1 } in
      elim (Bool-cases (cancelled clock)) [
        | inl stop ↦ rw (stop, parse_dir) h
        | inr go ↦ elim (Result-cases (parse_file client path)) [
          | inl (meta, e) ↦
              rw (go, e, parse_dir)
                (parse_dir-Sees (clock + 1) paths (keep_parsed (some path, meta) s).0 stats' t
                  (keep_parsed-Sees (some path, meta) s t h))
          | inr (f, e) ↦ rw (go, e, parse_dir) (parse_dir-Sees (clock + 1) paths s stats' t h)
        ]
      ]

  -- Each file that parses is kept.
  parse_dir_complete :
      (clock : ℕ) (paths : List Text) (s : Loop) (stats : ReseedStats)
      → (parse_dir cancelled closed client find_existing clock paths s stats).2 ≡ ok tt
      → All
          (λ path.
            Kept
              (parse_dir cancelled closed client find_existing clock paths s stats).0
              (parse_file client path))
          paths
  unfolding parse_dir
  parse_dir_complete clock [] s stats w = tt
  parse_dir_complete clock (path ∷ paths) s stats w =
      let stats' : ReseedStats = record stats { scanned = add_to stats.scanned 1 } in
      elim (Bool-cases (cancelled clock)) [
        | inl stop ↦ absurd (ground (arith, rw (stop, parse_dir) at w))
        | inr go ↦ elim (Result-cases (parse_file client path)) [
          | inl (meta, e) ↦
              let s' = (keep_parsed (some path, meta) s).0 in
              let step : parse_dir cancelled closed client find_existing clock (path ∷ paths) s
                    stats
                  ≡ parse_dir cancelled closed client find_existing (clock + 1) paths s' stats' =
                rw (go, e, parse_dir) refl in
              subst (λ r. All (λ path. Kept r.0 (parse_file client path)) (path ∷ paths)) (sym step)
                (
                  subst
                      (λ parsed.
                        Kept
                          (parse_dir cancelled closed client find_existing (clock + 1) paths s'
                            stats').0
                          parsed)
                      (sym e)
                      (parse_dir-Sees (clock + 1) paths s' stats' meta.info_hash
                        (keep_parsed-own (some path, meta) s)),
                  parse_dir_complete (clock + 1) paths s' stats' (ap (λ r. r.2) (sym step) ∙ w),
                )
          | inr (f, e) ↦
              let step : parse_dir cancelled closed client find_existing clock (path ∷ paths) s
                    stats
                  ≡ parse_dir cancelled closed client find_existing (clock + 1) paths s stats' =
                rw (go, e, parse_dir) refl in
              subst (λ r. All (λ path. Kept r.0 (parse_file client path)) (path ∷ paths)) (sym step)
                (
                  subst
                      (λ parsed.
                        Kept
                          (parse_dir cancelled closed client find_existing (clock + 1) paths s
                            stats').0
                          parsed)
                      (sym e) tt,
                  parse_dir_complete (clock + 1) paths s stats' (ap (λ r. r.2) (sym step) ∙ w),
                )
        ]
      ]

  pub scan_dir_complete :
      (dir : Option (Result (List Text))) (stats : ReseedStats) (clock : ℕ)
      → (scan_dir cancelled closed client find_existing dir stats).2 ≡ ok clock
      → DirKept client (scan_dir cancelled closed client find_existing dir stats).0 dir
  unfolding scan_dir
  scan_dir_complete none stats clock w = tt
  scan_dir_complete (some (err e)) stats clock w = tt
  scan_dir_complete (some (ok paths)) stats clock w =
      let (s, stats', answer) =
        parse_dir cancelled closed client find_existing 0 paths
          (empty_loop cancelled closed client find_existing) stats in
      elim (Result-cases answer) [
        | inl (tt, y) ↦ parse_dir_complete 0 paths _ stats y
        | inr (e, y) ↦ absurd (ground (arith, y, w))
      ]
