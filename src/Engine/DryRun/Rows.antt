-- ===== src/Engine/DryRun/Rows.antt =====
-- crates/core/src/engine/dry_run.rs and engine/pipeline.rs: the rows of a preview, and the title and
-- size that a row shows.
use pt_reseeder.Base.{
  ℕ, zero, suc, ◌+◌, min, ltb, ◌≡◌, refl, ap, ap₂, sym, ◌∙◌, not, ◌&&◌, Bool, true, false, Option,
  none, some, List, [], ◌∷◌, map, if◌then◌else◌, length, length-append, take, is_empty, is_some,
  filter_map, arith, Option-cases, Bool-cases, inl, inr,
}
use pt_reseeder.Base.Int.{ℤ, as_i64}
use pt_reseeder.Base.Text.{Text}
use pt_reseeder.Torrent.Parser.{TorrentMeta}
use pt_reseeder.Engine.Adder.{MatchedTorrent}
use pt_reseeder.Base.Maps.{TextMap, find}
use pt_reseeder.Engine.Scanner.{ScanResult}
use pt_reseeder.Engine.Matcher.{HistorySkippedTorrent}
use pt_reseeder.Engine.DryRun.{
  Registry, note_meta, meta_loop, meta_from_scan, build_preview, run_preview,
  preview_item_from_match, preview_item_from_history_skip, history_skip_item_cap,
}

module _ {A B : Type 0} where
  length-map : (f : A → B) (xs : List A) → length (map f xs) ≡ length xs
  length-map f [] = refl
  length-map f (x ∷ xs) = ap suc (length-map f xs)

  abbrev pub first_with : (A → Option B) → List A → Option B
  first_with f [] = none
  first_with f (x ∷ xs) = elim (f x) [ some y ↦ some y | none ↦ first_with f xs ]

length-take {ℓ} : {A : Type ℓ} (n : ℕ) (xs : List A) → length (take n xs) ≡ min n (length xs)
length-take zero xs = omega arith
length-take (suc n) [] = omega arith
length-take (suc n) (x ∷ xs) = omega (arith, length-take n xs)

module _ (scan : ScanResult) (registry : Registry) where
  -- Whatever a run matched and skipped, the first count of the preview that it begins with, before any
  -- addition, is that of the matches and the second that of all skipped pairs; the preview then has a row
  -- for each of at most 200 skipped pairs and, in a dry run, one for each match. (Outside a dry run the
  -- rows of the matches are put in as the adders end.)
  pub run_preview-counts :
      (skipped : List HistorySkippedTorrent) (matched : List MatchedTorrent) (dry_run : Bool)
      → ((run_preview scan registry skipped matched dry_run).would_add_count ≡ length matched)
        × ((run_preview scan registry skipped matched dry_run).history_skipped_count
            ≡ length skipped)
        × (length (run_preview scan registry skipped matched dry_run).items
            ≡ (if dry_run then length matched else 0) + min 200 (length skipped))
  unfolding run_preview build_preview
  run_preview-counts skipped matched dry_run =
      let row = preview_item_from_history_skip scan registry in
      let row' = λ (m : MatchedTorrent). preview_item_from_match scan registry m none in
      let shown = take history_skip_item_cap skipped in
      let shown_size = length-map row shown ∙ length-take history_skip_item_cap skipped in
      let matched_size = length-map row' matched in
      let all_size = length-append (map row' matched) (map row shown) in
      elim (Bool-cases dry_run) [
        | inl d ↦ rw d (matched_size, refl, omega (arith, shown_size, matched_size, all_size))
        | inr d ↦ rw d (refl, refl, omega (arith, shown_size))
      ]

-- What a torrent offers for a title and a size.
abbrev pub title_of : TorrentMeta → Option Text
title_of meta = if not (is_empty meta.name) then some meta.name else none

abbrev pub size_of : TorrentMeta → Option ℤ
size_of meta = if ltb 0 meta.total_size then some (as_i64 meta.total_size) else none

abbrev or_first : {A : Type 0} → Option A → Option A → Option A
or_first none b = b
or_first (some a) b = some a

or_first_assoc :
    {A : Type 0} (a b c : Option A) → or_first (or_first a b) c ≡ or_first a (or_first b c)
or_first_assoc none b c = refl
or_first_assoc (some a) b c = refl

first_with-cons :
    {A B : Type 0} (f : A → Option B) (x : A) (xs : List A)
    → first_with f (x ∷ xs) ≡ or_first (f x) (first_with f xs)
first_with-cons f x xs = elim (Option-cases (f x)) [
  | inl n ↦ rw (n, first_with) refl
  | inr (y, e) ↦ rw (e, first_with) refl
]

or_first-none : {A : Type 0} (a : Option A) → or_first a none ≡ a
or_first-none none = refl
or_first-none (some a) = refl

or_first_full : {A : Type 0} (a b : Option A) → is_some a ≡ true → or_first a b ≡ a
or_first_full none b h = cc
or_first_full (some a) b h = refl

or_first-if :
    {A : Type 0} (t : Option A) (b : Bool) (a : A)
    → (if not (is_some t) && b then some a else t) ≡ or_first t (if b then some a else none)
or_first-if none true a = refl
or_first-if none false a = refl
or_first-if (some x) b a = refl

note_meta_lem :
    (meta : TorrentMeta) (t : Option Text) (s : Option ℤ)
    → note_meta meta (t, s) ≡ (or_first t (title_of meta), or_first s (size_of meta))
unfolding note_meta
note_meta_lem meta t s =
    ap₂ (λ a b. (a, b)) (or_first-if t (not (is_empty meta.name)) meta.name)
      (or_first-if s (ltb 0 meta.total_size) (as_i64 meta.total_size))

unfoldable pub metas_of : TextMap TorrentMeta → List Text → List TorrentMeta
metas_of torrents hs = filter_map (λ h. find h torrents) hs

metas_of-none :
    (torrents : TextMap TorrentMeta) (h : Text) (hs : List Text)
    → find h torrents ≡ none
    → metas_of torrents (h ∷ hs) ≡ metas_of torrents hs
unfolding metas_of
metas_of-none torrents h hs e = rw (e, filter_map) refl

metas_of-some :
    (torrents : TextMap TorrentMeta) (h : Text) (hs : List Text) (meta : TorrentMeta)
    → find h torrents ≡ some meta
    → metas_of torrents (h ∷ hs) ≡ meta ∷ metas_of torrents hs
unfolding metas_of
metas_of-some torrents h hs meta e = rw (e, filter_map) refl

meta_loop-none :
    (torrents : TextMap TorrentMeta) (h : Text) (hs : List Text) (s : Option Text × Option ℤ)
    → find h torrents ≡ none
    → meta_loop torrents (h ∷ hs) s ≡ meta_loop torrents hs s
unfolding meta_loop
meta_loop-none torrents h hs s e = rw (e, meta_loop) refl

meta_loop-some :
    (torrents : TextMap TorrentMeta) (h : Text) (hs : List Text) (meta : TorrentMeta)
    (s : Option Text × Option ℤ) (b : Bool)
    → find h torrents ≡ some meta
    → (is_some (note_meta meta s).0 && is_some (note_meta meta s).1) ≡ b
    → meta_loop torrents (h ∷ hs) s
      ≡ (if b then note_meta meta s else meta_loop torrents hs (note_meta meta s))
unfolding meta_loop
meta_loop-some torrents h hs meta s true e both = rw (e, meta_loop, both) refl
meta_loop-some torrents h hs meta s false e both = rw (e, meta_loop, both) refl

-- Where both are found, the torrents behind do not change them.
or_first_stop :
    (t x : Option Text) (s y : Option ℤ)
    → (is_some t && is_some s) ≡ true
    → ◌≡◌ {A = Option Text × Option ℤ} (t, s) (or_first t x, or_first s y)
or_first_stop none x s y h = cc
or_first_stop (some a) x none y h = cc
or_first_stop (some a) x (some b) y h = refl

meta_loop-found :
    (torrents : TextMap TorrentMeta) (h : Text) (hs : List Text) (meta : TorrentMeta)
    (t x : Option Text) (s y : Option ℤ)
    → find h torrents ≡ some meta
    → meta_loop torrents hs (or_first t (title_of meta), or_first s (size_of meta))
      ≡ (or_first (or_first t (title_of meta)) x, or_first (or_first s (size_of meta)) y)
    → meta_loop torrents (h ∷ hs) (t, s)
      ≡ (or_first (or_first t (title_of meta)) x, or_first (or_first s (size_of meta)) y)
meta_loop-found torrents h hs meta t x s y e later =
    let t' = or_first t (title_of meta) in
    let s' = or_first s (size_of meta) in
    let noted = note_meta_lem meta t s in
    elim (Bool-cases (is_some t' && is_some s')) [
      | inl b ↦
          meta_loop-some torrents h hs meta (t, s) true e (rw noted b)
          ∙ (noted ∙ or_first_stop t' x s' y b)
      | inr b ↦ meta_loop-some torrents h hs meta (t, s) false e (rw noted b) ∙ rw noted later
    ]

meta_loop-first :
    (torrents : TextMap TorrentMeta) (hs : List Text) (t : Option Text) (s : Option ℤ)
    → meta_loop torrents hs (t, s) ≡ (
      or_first t (first_with title_of (metas_of torrents hs)),
      or_first s (first_with size_of (metas_of torrents hs)),
    )
unfolding meta_loop metas_of
meta_loop-first torrents [] t s =
    ap₂ (λ a b. (a, b)) (sym (or_first-none t)) (sym (or_first-none s))
meta_loop-first torrents (h ∷ hs) t s = elim (Option-cases (find h torrents)) [
  | inl n ↦
      meta_loop-none torrents h hs (t, s) n
      ∙ rw (metas_of-none torrents h hs n) (meta_loop-first torrents hs t s)
  | inr (meta, e) ↦
      let metas = metas_of torrents hs in
      let t' = or_first t (title_of meta) in
      let s' = or_first s (size_of meta) in
      let x = first_with title_of metas in
      let y = first_with size_of metas in
      meta_loop-found torrents h hs meta t x s y e (meta_loop-first torrents hs t' s')
      ∙ rw
          (
            metas_of-some torrents h hs meta e,
            first_with-cons title_of meta metas,
            first_with-cons size_of meta metas,
          )
          (ap₂ (λ a b. (a, b)) (or_first_assoc t (title_of meta) x)
            (or_first_assoc s (size_of meta) y))
]

-- For a pieces hash that was scanned, the title shown is the first name that is not empty among the
-- parsed torrents of its group, and the size the first that is not zero, each for itself.
pub meta_from_scan-first :
    (scan : ScanResult) (pieces_hash : Text) (info_hashes : List Text)
    → find pieces_hash scan.pieces_groups ≡ some info_hashes
    → meta_from_scan scan pieces_hash ≡ (
      first_with title_of (metas_of scan.torrents info_hashes),
      first_with size_of (metas_of scan.torrents info_hashes),
    )
unfolding meta_from_scan
meta_from_scan-first scan pieces_hash info_hashes e =
    rw (e, meta_from_scan) (meta_loop-first scan.torrents info_hashes none none)
