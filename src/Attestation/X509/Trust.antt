-- ===== src/Attestation/X509/Trust.antt =====
-- x509.ts: which chains are trusted.
use sdidfy.Prelude.{
  ℕ, ◌≤◌, ◌≡◌, ◌↔◌, ◌⊎◌, inl, inr, refl, sym, ◌∙◌, Bool, true, false, not, ◌&&◌, ◌||◌, Option, none,
  some, List, [], ◌∷◌, ltb, ◌==◌, if◌then◌else◌, length, ok, ◌>>=◌, throw_if, throw_if-eq-ok,
  >>-eq-ok, le→ltb, suc, arith, All, Bool-cases,
}
use sdidfy.Attestation.Texts.{same_text}
use sdidfy.Attestation.Base64.RoundTrip.{same_text_refl, same_text-eq}
use sdidfy.Attestation.Node.{Certificate, NodeCrypto}
use sdidfy.Attestation.X509.{
  chain_too_long, no_anchors, not_issued, bad_signature, max_chain_length, check_certificates,
  check_links, check_anchors, verify_certificate_chain, safe_check_issued, safe_verify, or_false,
  top_of,
}
use sdidfy.Attestation.X509.Window.{IsInForce, IsCa, check_certificates_iff}

module _ (crypto : NodeCrypto) where
  abbrev pub IsLink : Certificate → Certificate → Type 0
  IsLink child parent =
      (crypto.check_issued child parent ≡ some true)
      × (crypto.verify child parent.public_key ≡ some true)

  abbrev pub Links : List Certificate → Type 0
  Links [] = Unit {0}
  Links (top ∷ []) = Unit {0}
  Links (child ∷ parent ∷ certs) = IsLink child parent × Links (parent ∷ certs)

  -- The certificate is an anchor, or a CA among the anchors has issued and signed it.
  abbrev pub IsAnchored : Certificate → List Certificate → Type 0
  IsAnchored top [] = ⊥
  IsAnchored top (anchor ∷ anchors) =
      (top.raw ≡ anchor.raw) ⊎ (IsCa anchor × IsLink top anchor) ⊎ IsAnchored top anchors

  abbrev pub IsTrusted : List Certificate → List Certificate → ℕ → Type 0
  IsTrusted [] anchors now = ⊥
  IsTrusted (leaf ∷ certs) anchors now =
      (length (leaf ∷ certs) ≤ max_chain_length)
      × All (IsInForce now) (leaf ∷ certs)
      × All IsCa certs
      × Links (leaf ∷ certs)
      × IsAnchored (top_of leaf certs) anchors

or_false_iff : (o : Option Bool) → (or_false o ≡ true) ↔ (o ≡ some true)
or_false_iff none = (λ e. cc, λ e. cc)
or_false_iff (some b) = (λ e. rw e refl, λ e. cc)

check_links_iff :
    (crypto : NodeCrypto) (chain : List Certificate)
    → (check_links crypto chain ≡ ok tt) ↔ Links crypto chain
unfolding check_links
check_links_iff crypto [] = (λ e. tt, λ h. refl)
check_links_iff crypto (c ∷ []) = (λ e. tt, λ h. refl)
check_links_iff crypto (c ∷ d ∷ cs) = (
  λ e.
      let (issued, next) =
        throw_if-eq-ok (not (safe_check_issued crypto c d)) not_issued
          (throw_if (not (safe_verify crypto c d)) bad_signature >>= λ _.
            check_links crypto (d ∷ cs))
          e in
      let (signed, rest) =
        throw_if-eq-ok (not (safe_verify crypto c d)) bad_signature (check_links crypto (d ∷ cs))
          next in
      (
        (
          (or_false_iff (crypto.check_issued c d)).0 (ground (arith, issued)),
          (or_false_iff (crypto.verify c d.public_key)).0 (ground (arith, signed)),
        ),
        (check_links_iff crypto (d ∷ cs)).0 rest,
      ),
  λ ((issued, signed), rest). rw (issued, signed) ((check_links_iff crypto (d ∷ cs)).1 rest),
)

abbrev link : NodeCrypto → Certificate → Certificate → Bool
link crypto child parent = safe_check_issued crypto child parent && safe_verify crypto child parent

link_iff :
    (crypto : NodeCrypto) (child parent : Certificate)
    → (link crypto child parent ≡ true) ↔ IsLink crypto child parent
link_iff crypto child parent = (
  λ e. (
    (or_false_iff (crypto.check_issued child parent)).0 (ground (arith, e)),
    (or_false_iff (crypto.verify child parent.public_key)).0 (ground (arith, e)),
  ),
  λ (issued, signed). rw (issued, signed) refl,
)

-- One round of the search for an anchor.
abbrev accepts : NodeCrypto → Certificate → Certificate → Bool
accepts crypto top anchor = same_text top.raw anchor.raw || (anchor.ca && link crypto top anchor)

accepts_iff :
    (crypto : NodeCrypto) (top a : Certificate)
    → (accepts crypto top a ≡ true) ↔ ((top.raw ≡ a.raw) ⊎ (IsCa a × IsLink crypto top a))
accepts_iff crypto top a = (
  λ e. elim (Bool-cases (same_text top.raw a.raw)) [
    | inl pinned ↦ inl (same_text-eq top.raw a.raw pinned)
    | inr other ↦
        inr (ground (arith, other, e), (link_iff crypto top a).0 (ground (arith, other, e)))
  ],
  λ h. elim h [
    | inl pinned ↦ rw (pinned, same_text_refl a.raw) refl
    | inr (is_ca, linked) ↦
        let signed = (link_iff crypto top a).1 linked in ground (arith, is_ca, signed)
  ],
)

check_anchors_step :
    (crypto : NodeCrypto) (top a : Certificate) (as' : List Certificate)
    → check_anchors crypto top (a ∷ as')
      ≡ (if accepts crypto top a then ok tt else check_anchors crypto top as')
unfolding check_anchors
check_anchors_step crypto top a as' = ground arith

check_anchors_iff :
    (crypto : NodeCrypto) (top : Certificate) (anchors : List Certificate)
    → (check_anchors crypto top anchors ≡ ok tt) ↔ IsAnchored crypto top anchors
check_anchors_iff crypto top [] = (λ e. absurd (unfold check_anchors in cc), λ h. absurd h)
check_anchors_iff crypto top (a ∷ as') = elim (Bool-cases (accepts crypto top a)) [
  | inl hit ↦ (
    λ e. elim ((accepts_iff crypto top a).0 hit) [ inl p ↦ inl p | inr q ↦ inr (inl q) ],
    λ h. rw (check_anchors_step crypto top a as', hit) refl,
  )
  | inr miss ↦
      let step : check_anchors crypto top (a ∷ as') ≡ check_anchors crypto top as' =
        rw (check_anchors_step crypto top a as', miss) refl in
      let not_here : ((top.raw ≡ a.raw) ⊎ (IsCa a × IsLink crypto top a)) → ⊥ =
        λ h. let hit = (accepts_iff crypto top a).1 h in ground (arith, hit, miss) in
      (
        λ e. inr (inr ((check_anchors_iff crypto top as').0 (sym step ∙ e))),
        λ h. elim h [
          | inl p ↦ absurd (not_here (inl p))
          | inr (inl q) ↦ absurd (not_here (inr q))
          | inr (inr rest) ↦ step ∙ (check_anchors_iff crypto top as').1 rest
        ],
      )
]

IsAnchored-some :
    (crypto : NodeCrypto) (top : Certificate) (anchors : List Certificate)
    → IsAnchored crypto top anchors
    → (length anchors == 0) ≡ false
IsAnchored-some crypto top [] h = absurd h
IsAnchored-some crypto top (a ∷ as') h = ground arith

-- A chain is accepted exactly when it has one to eight certificates, each in force at the time, every
-- one but the leaf a CA, each issued and signed by the next, and its last one is pinned, or issued
-- and signed by a pinned CA.
pub verify_certificate_chain_iff :
    (crypto : NodeCrypto) (chain anchors : List Certificate) (now : ℕ)
    → (verify_certificate_chain crypto chain anchors now ≡ ok tt)
      ↔ IsTrusted crypto chain anchors now
unfolding verify_certificate_chain
verify_certificate_chain_iff crypto [] anchors now = (λ e. absurd cc, λ h. absurd h)
verify_certificate_chain_iff crypto (leaf ∷ certs) anchors now = (
  λ e.
      let (short, e1) =
        throw_if-eq-ok (ltb max_chain_length (suc (length certs))) chain_too_long _ e in
      let (pinned, e2) = throw_if-eq-ok (length anchors == 0) no_anchors _ e1 in
      let (fine, e3) = >>-eq-ok (check_certificates now false (leaf ∷ certs)) _ e2 in
      let (linked, anchored) = >>-eq-ok (check_links crypto (leaf ∷ certs)) _ e3 in
      let (inside, cas) = (check_certificates_iff now leaf certs).0 fine in
      (
        ground (arith, short),
        inside,
        cas,
        (check_links_iff crypto (leaf ∷ certs)).0 linked,
        (check_anchors_iff crypto (top_of leaf certs) anchors).0 anchored,
      ),
  λ (short, inside, cas, linked, anchored).
      rw
        (
          le→ltb max_chain_length (suc (length certs)) short,
          IsAnchored-some crypto (top_of leaf certs) anchors anchored,
          (check_certificates_iff now leaf certs).1 (inside, cas),
          (check_links_iff crypto (leaf ∷ certs)).1 linked,
          (check_anchors_iff crypto (top_of leaf certs) anchors).1 anchored,
        )
        refl,
)
