-- ===== src/Engine/Filter/Hosts.antt =====
-- crates/core/src/engine/filter.rs: which trackers count as those of a site.
use pt_reseeder.Base.{
  ℕ, ◌≡◌, ◌≢◌, refl, ap, Bool, true, false, ◌||◌, List, [], ◌∷◌, ◌++◌, ◌==◌, All, arith, ◌↔◌,
}
use pt_reseeder.Base.Text.{Text, codes, text_eq_refl, text_eq_iff, strip_prefix}
use pt_reseeder.Engine.Filter.{strip_protocol, before_separator, extract_domain, filter_by_tracker}

abbrev pub is_separator : ℕ → Bool
is_separator c = c == b'/' || c == b':'

abbrev pub IsHost : Text → Type 0
IsHost = All (λ c. is_separator c ≡ false)

before_separator-append :
    (host : Text) (c : ℕ) (rest : Text)
    → IsHost host
    → is_separator c ≡ true
    → before_separator (host ++ c ∷ rest) ≡ host
unfolding before_separator
before_separator-append [] c rest h s = ground arith
before_separator-append (x ∷ xs) c rest h s =
    ground (arith, before_separator-append xs c rest h.1 s)

before_separator_all : (host : Text) → IsHost host → before_separator host ≡ host
unfolding before_separator
before_separator_all [] h = refl
before_separator_all (x ∷ xs) h = ground (arith, before_separator_all xs h.1)

module _ (to_lowercase : Text → Text) where
  extract_domain-https :
      (host : Text) (c : ℕ) (rest : Text)
      → IsHost host
      → is_separator c ≡ true
      → extract_domain to_lowercase (codes "https://" ++ (host ++ c ∷ rest)) ≡ to_lowercase host
  unfolding extract_domain strip_protocol strip_prefix
  extract_domain-https host c rest h s = ap to_lowercase (before_separator-append host c rest h s)

  extract_domain-http :
      (host : Text) (c : ℕ) (rest : Text)
      → IsHost host
      → is_separator c ≡ true
      → extract_domain to_lowercase (codes "http://" ++ (host ++ c ∷ rest)) ≡ to_lowercase host
  unfolding extract_domain strip_protocol strip_prefix
  extract_domain-http host c rest h s = ap to_lowercase (before_separator-append host c rest h s)

  -- A site's URL over https is found among announce URLs one of which names the same host over
  -- http, whatever ports or paths follow the host in the two.
  pub same_host_found :
      (earlier later : List Text) (host port path : Text) (c d : ℕ)
      → IsHost host
      → is_separator c ≡ true
      → is_separator d ≡ true
      → filter_by_tracker to_lowercase
          (earlier ++ (codes "http://" ++ (host ++ c ∷ port)) ∷ later)
          (codes "https://" ++ (host ++ d ∷ path))
        ≡ true
  unfolding filter_by_tracker
  same_host_found [] later host port path c d h s t =
      rw
        (
          extract_domain-http host c port h s,
          extract_domain-https host d path h t,
          text_eq_refl (to_lowercase host),
        )
        refl
  same_host_found (u ∷ us) later host port path c d h s t =
      ground (arith, same_host_found us later host port path c d h s t)

  -- The filter lets pieces pass exactly when no announce URL has the domain of the site.
  pub filter_by_tracker-false :
      (urls : List Text) (base : Text)
      → (filter_by_tracker to_lowercase urls base ≡ false)
        ↔ All (λ url. extract_domain to_lowercase url ≢ extract_domain to_lowercase base) urls
  unfolding filter_by_tracker
  filter_by_tracker-false [] base = ((λ _. tt), (λ _. refl))
  filter_by_tracker-false (u ∷ us) base =
      let rest = filter_by_tracker-false us base in
      let same = text_eq_iff (extract_domain to_lowercase u) (extract_domain to_lowercase base) in
      (
        (λ h. ((λ e. ground (arith, same.1 e)), rest.0 (ground arith))),
        (λ (n, ns). ground (arith, n, same.0, rest.1 ns)),
      )
