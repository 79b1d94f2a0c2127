-- ===== src/Engine/Scanner/Materialize/Complete.antt =====
-- crates/core/src/engine/scanner.rs: no torrent that the client can give is left out by the loop.
use pt_reseeder.Base.{
  ℕ, ◌+◌, ◌≡◌, ◌∙◌, refl, sym, ap, subst, Bool, true, false, some, List, [], ◌∷◌, All, arith,
  Bool-cases, inl, inr,
}
use pt_reseeder.Base.Text.{Text, text_eq_refl, contains_text}
use pt_reseeder.Base.Maps.{find}
use pt_reseeder.Error.{ok}
use pt_reseeder.Torrent.Parser.{TorrentMeta}
use pt_reseeder.Engine.Stats.{ReseedStats, add_to}
use pt_reseeder.Engine.Scanner.{Parsed, Client, Listing, Loop}
use pt_reseeder.Engine.Scanner.Materialize.{
  keep_parsed, meta_from_hash, give_up_local, try_local, try_export, try_pieces_hash, materialize,
  hopeless, materialize_all,
}
use pt_reseeder.Engine.Scanner.Materialize.Seen.{contains_text-append}

abbrev pub Sees : Loop → Text → Type 0
Sees s t = contains_text s.seen_info_hashes t ≡ true

pub keep_parsed-Sees : (p : Parsed) (s : Loop) (t : Text) → Sees s t → Sees (keep_parsed p s).0 t
unfolding keep_parsed contains_text
keep_parsed-Sees p s t h =
    ground (arith, contains_text-append s.seen_info_hashes (p.1.info_hash ∷ []) t)

pub keep_parsed-own : (p : Parsed) (s : Loop) → Sees (keep_parsed p s).0 p.1.info_hash
unfolding keep_parsed contains_text
keep_parsed-own p s = ground (
  arith,
  text_eq_refl p.1.info_hash,
  contains_text-append s.seen_info_hashes (p.1.info_hash ∷ []) p.1.info_hash,
)

-- What the client says for a hash is of the torrent with that info hash, whether it is the file that
-- the list names or the export.
pub record IsHonest (client : Client) (l : Listing) : Type 0 where
  pub local :
      (hash path bytes : Text) (meta : TorrentMeta)
      → find hash l.listed_torrent_files ≡ some path
      → client.read path ≡ ok bytes
      → client.parse bytes ≡ ok meta
      → meta.info_hash ≡ hash
  pub export :
      (hash bytes : Text) (meta : TorrentMeta)
      → client.export_torrent hash ≡ ok (some bytes)
      → client.parse bytes ≡ ok meta
      → meta.info_hash ≡ hash

-- The client answers with a pieces hash.
abbrev pub Answers : Client → Text → Type 0
Answers client hash = (pieces_hash : Text) × (client.get_pieces_hash hash ≡ ok (some pieces_hash))

module _ (client : Client) (l : Listing) where
  try_local-Sees :
      (hash : Text) (s : Loop) (t : Text) → Sees s t → Sees (try_local client l hash s).0 t
  unfolding try_local give_up_local
  try_local-Sees hash s t h = grind (arith, keep_parsed-Sees)

  try_export-Sees :
      (hash : Text) (s : Loop) (t : Text) → Sees s t → Sees (try_export client l hash s).0 t
  unfolding try_export keep_parsed
  try_export-Sees hash s t h = grind (arith, contains_text-append)

  try_pieces_hash-Sees :
      (hash : Text) (s : Loop) (t : Text) → Sees s t → Sees (try_pieces_hash client l hash s).0 t
  unfolding try_pieces_hash keep_parsed meta_from_hash
  try_pieces_hash-Sees hash s t h =
      ground (arith, contains_text-append s.seen_info_hashes (hash ∷ []) t)

  try_local-own :
      (hash : Text) (s : Loop)
      → IsHonest client l
      → (try_local client l hash s).1 ≡ true
      → Sees (try_local client l hash s).0 hash
  unfolding try_local
  try_local-own hash s honest e = grind (arith, keep_parsed-own, honest.local)

  try_export-own :
      (hash : Text) (s : Loop)
      → IsHonest client l
      → (try_export client l hash s).1 ≡ true
      → Sees (try_export client l hash s).0 hash
  unfolding try_export
  try_export-own hash s honest e = grind (arith, keep_parsed-own, honest.export)

  try_local-lost :
      (hash : Text) (s : Loop)
      → (try_local client l hash s).1 ≡ false
      → (try_local client l hash s).0.seen_info_hashes ≡ s.seen_info_hashes
  unfolding try_local give_up_local keep_parsed
  try_local-lost hash s e = ground arith

  try_export-lost :
      (hash : Text) (s : Loop)
      → (try_export client l hash s).1 ≡ false
      → (try_export client l hash s).0.seen_info_hashes ≡ s.seen_info_hashes
  unfolding try_export keep_parsed
  try_export-lost hash s e = ground arith

  try_pieces_hash-own :
      (hash : Text) (s : Loop)
      → Answers client hash
      → contains_text s.seen_info_hashes hash ≡ false
      → (Sees (try_pieces_hash client l hash s).0 hash)
        × ((try_pieces_hash client l hash s).1 ≡ true)
  unfolding try_pieces_hash keep_parsed meta_from_hash contains_text
  try_pieces_hash-own hash s (pieces_hash, e) new = (
    ground (arith, text_eq_refl hash, contains_text-append s.seen_info_hashes (hash ∷ []) hash),
    ground arith,
  )

  materialize-Sees :
      (hash : Text) (s : Loop) (t : Text) → Sees s t → Sees (materialize client l hash s) t
  unfolding materialize
  materialize-Sees hash s t h =
      let s₁ = (try_local client l hash s).0 in
      let s₂ = (try_export client l hash s₁).0 in
      let h₁ = try_local-Sees hash s t h in
      let h₂ = try_export-Sees hash s₁ t h₁ in
      let h₃ = try_pieces_hash-Sees hash s₂ t h₂ in ground arith

  -- A new hash is taken, and is no miss.
  materialize-own :
      (hash : Text) (s : Loop)
      → IsHonest client l
      → Answers client hash
      → contains_text s.seen_info_hashes hash ≡ false
      → (Sees (materialize client l hash s) hash)
        × ((materialize client l hash s).consecutive_misses ≡ 0)
  unfolding materialize
  materialize-own hash s honest answers new =
      let (s₁, local) = try_local client l hash s in
      let (s₂, exported) = try_export client l hash s₁ in
      elim (Bool-cases local) [
        | inl a ↦ let own = try_local-own hash s honest a in (ground arith, ground arith)
        | inr a ↦ elim (Bool-cases exported) [
          | inl b ↦ let own = try_export-own hash s₁ honest b in (ground arith, ground arith)
          | inr b ↦
              let same = try_local-lost hash s a in
              let same' = try_export-lost hash s₁ b in
              let own = try_pieces_hash-own hash s₂ answers (ground arith) in
              (ground arith, ground arith)
        ]
      ]

  module _ (cancelled : ℕ → Bool) where
    pub materialize_all-Sees :
        (clock : ℕ) (hashes : List Text) (s : Loop) (stats : ReseedStats) (t : Text)
        → Sees s t
        → Sees (materialize_all client l cancelled clock hashes s stats).0 t
    unfolding materialize_all
    materialize_all-Sees clock [] s stats t h = h
    materialize_all-Sees clock (x ∷ xs) s stats t h =
        let s' = materialize client l x s in
        let stats' : ReseedStats = record stats { scanned = add_to stats.scanned 1 } in
        ground (
          arith,
          materialize-Sees x s t h,
          materialize_all-Sees (clock + 1) xs s stats t,
          materialize_all-Sees (clock + 1) xs s' stats' t,
        )

    -- Where the client is honest and answers for each hash, the loop takes each of them.
    pub materialize_all_complete :
        (clock : ℕ) (hashes : List Text) (s : Loop) (stats : ReseedStats)
        → IsHonest client l
        → All (Answers client) hashes
        → (materialize_all client l cancelled clock hashes s stats).2 ≡ ok tt
        → All (Sees (materialize_all client l cancelled clock hashes s stats).0) hashes
    unfolding materialize_all hopeless
    materialize_all_complete clock [] s stats honest all e = tt
    materialize_all_complete clock (x ∷ xs) s stats honest (a, all) e =
        let s' = materialize client l x s in
        let stats' : ReseedStats = record stats { scanned = add_to stats.scanned 1 } in
        elim (Bool-cases (cancelled clock)) [
          | inl stop ↦ absurd (ground (arith, rw (stop, materialize_all) at e))
          | inr go ↦ elim (Bool-cases (contains_text s.seen_info_hashes x)) [
            | inl old ↦
                let step : materialize_all client l cancelled clock (x ∷ xs) s stats
                    ≡ materialize_all client l cancelled (clock + 1) xs s stats =
                  rw (go, old, materialize_all) refl in
                subst (λ r. All (Sees r.0) (x ∷ xs)) (sym step)
                  (
                    materialize_all-Sees (clock + 1) xs s stats x old,
                    materialize_all_complete (clock + 1) xs s stats honest all
                        (ap (λ r. r.2) (sym step) ∙ e),
                  )
            | inr new ↦
                let own = materialize-own x s honest a new in
                let hopeful : hopeless client l s' ≡ false = ground arith in
                let step : materialize_all client l cancelled clock (x ∷ xs) s stats
                    ≡ materialize_all client l cancelled (clock + 1) xs s' stats' =
                  rw (go, new, hopeful, materialize_all) refl in
                subst (λ r. All (Sees r.0) (x ∷ xs)) (sym step)
                  (
                    materialize_all-Sees (clock + 1) xs s' stats' x own.0,
                    materialize_all_complete (clock + 1) xs s' stats' honest all
                        (ap (λ r. r.2) (sym step) ∙ e),
                  )
          ]
        ]
