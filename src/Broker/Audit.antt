-- ===== src/Broker/Audit.antt =====
-- apps/broker/src/audit/audit.service.ts: the hash chain. The canonical text of a row and SHA-256 are
-- parameters. The advisory lock makes the appends one sequence.
use Prim.Native.String.{String}
use sdidfy.Prelude.{
  ℕ, suc, zero, ◌≡◌, refl, sym, ◌∙◌, not, List, [], ◌∷◌, ◌++◌, Option, none, some, arith, same,
  same_iff, same_refl, if◌then◌else◌, Bool-cases, inl, inr, take, length,
}

-- A row of `audit_events`: the hashed columns as one value, and the two hashes.
pub record ChainRow (E : Type 0) : Type 0 where
  pub event : E
  pub prev_hash : String
  pub hash : String

abbrev pub genesis_hash : String
genesis_hash = "genesis"

module _ {E : Type 0} (compute_hash : String → E → String) where
  -- `SELECT hash ... ORDER BY seq DESC LIMIT 1`, or the genesis hash; the rows are in the order of seq.
  unfoldable pub last_hash : String → List (ChainRow E) → String
  last_hash prev [] = prev
  last_hash prev (r ∷ rs) = last_hash r.hash rs

  unfoldable pub append_row : E → List (ChainRow E) → List (ChainRow E)
  unfolding last_hash
  append_row event rs =
      let prev = last_hash genesis_hash rs in
      rs ++ record { event = event; prev_hash = prev; hash = compute_hash prev event } ∷ []

  unfoldable pub append_all : List E → List (ChainRow E) → List (ChainRow E)
  unfolding append_row
  append_all [] rs = rs
  append_all (e ∷ es) rs = append_all es (append_row e rs)

  -- The loop of `verifyChain`: the position of the first row that does not fit, none if all do.
  unfoldable pub verify_from : String → ℕ → List (ChainRow E) → Option ℕ
  verify_from prev seq [] = none
  verify_from prev seq (r ∷ rs) =
      let rest = verify_from r.hash (suc seq) rs in
      if not (same r.prev_hash prev)
      then some seq
      else if not (same (compute_hash prev r.event) r.hash)
      then some seq
      else rest

  unfoldable pub verify_chain : List (ChainRow E) → Option ℕ
  unfolding verify_from
  verify_chain rs = verify_from genesis_hash 0 rs

  verify_from-snoc :
      (prev : String) (seq : ℕ) (rs : List (ChainRow E)) (e : E)
      → verify_from prev seq rs ≡ none
      → verify_from prev seq (
          rs
          ++ record {
            event = e;
            prev_hash = last_hash prev rs;
            hash = compute_hash (last_hash prev rs) e;
          }
            ∷ [])
        ≡ none
  unfolding verify_from last_hash
  verify_from-snoc prev seq [] e fine = rw (same_refl prev, same_refl (compute_hash prev e)) refl
  verify_from-snoc prev seq (r ∷ rs) e fine = elim (Bool-cases (not (same r.prev_hash prev))) [
    | inl cut ↦ absurd (ground (arith, cut, fine))
    | inr linked ↦ elim (Bool-cases (not (same (compute_hash prev r.event) r.hash))) [
      | inl forged ↦ absurd (ground (arith, linked, forged, fine))
      | inr true_hash ↦
          let rest : verify_from r.hash (suc seq) rs ≡ none =
            ground (arith, linked, true_hash, fine) in
          rw (linked, true_hash) (verify_from-snoc r.hash (suc seq) rs e rest)
    ]
  ]

  -- A trail that is only appended to verifies, however long it is.
  pub verify_chain-append_all :
      (es : List E) (rs : List (ChainRow E))
      → verify_chain rs ≡ none
      → verify_chain (append_all es rs) ≡ none
  unfolding append_all append_row verify_chain
  verify_chain-append_all [] rs fine = fine
  verify_chain-append_all (e ∷ es) rs fine =
      verify_chain-append_all es (append_row e rs) (verify_from-snoc genesis_hash 0 rs e fine)

  fits :
      (prev : String) (seq : ℕ) (r : ChainRow E) (rs : List (ChainRow E))
      → verify_from prev seq (r ∷ rs) ≡ none
      → (r.prev_hash ≡ prev)
        × (compute_hash prev r.event ≡ r.hash)
        × (verify_from r.hash (suc seq) rs ≡ none)
  unfolding verify_from
  fits prev seq r rs fine =
      ground (arith, fine, same_iff r.prev_hash prev, same_iff (compute_hash prev r.event) r.hash)

  verify_from-take :
      (prev : String) (seq n : ℕ) (rs : List (ChainRow E))
      → verify_from prev seq rs ≡ none
      → verify_from prev seq (take n rs) ≡ none
  unfolding verify_from
  verify_from-take prev seq zero rs fine = refl
  verify_from-take prev seq (suc n) [] fine = refl
  verify_from-take prev seq (suc n) (r ∷ rs) fine =
      let (linked, hashed, rest) = fits prev seq r rs fine in
      rw (linked, hashed, same_refl prev, same_refl r.hash)
        (verify_from-take r.hash (suc seq) n rs rest)

  -- The newest rows may be missing: a trail that verifies still verifies without them.
  pub verify_chain-take :
      (n : ℕ) (rs : List (ChainRow E)) → verify_chain rs ≡ none → verify_chain (take n rs) ≡ none
  unfolding verify_chain
  verify_chain-take n rs fine = verify_from-take genesis_hash 0 n rs fine

  module _
      (collision_free : (p q : String) (e f : E)
        → compute_hash p e ≡ compute_hash q f
        → (p ≡ q) × (e ≡ f)) where
    same_history :
        (p q : String) (s t : ℕ) (xs ys : List (ChainRow E))
        → verify_from p s xs ≡ none
        → verify_from q t ys ≡ none
        → length xs ≡ length ys
        → last_hash p xs ≡ last_hash q ys
        → (p ≡ q) × (xs ≡ ys)
    unfolding last_hash
    same_history p q s t [] [] fx fy len last = (last, refl)
    same_history p q s t [] (y ∷ ys) fx fy len last = absurd (omega (arith, len))
    same_history p q s t (x ∷ xs) [] fx fy len last = absurd (omega (arith, len))
    same_history p q s t (x ∷ xs) (y ∷ ys) fx fy len last =
        let (linked_x, hashed_x, rest_x) = fits p s x xs fx in
        let (linked_y, hashed_y, rest_y) = fits q t y ys fy in
        let (hashes, tails) =
          same_history x.hash y.hash (suc s) (suc t) xs ys rest_x rest_y (omega (arith, len))
            last in
        let (prevs, events) =
          collision_free p q x.event y.event (hashed_x ∙ hashes ∙ sym hashed_y) in
        (prevs, cc)

    -- Nothing can be altered behind the newest hash: two trails of one length that verify and end in
    -- the same hash are the same, row for row.
    pub verify_chain_injective :
        (xs ys : List (ChainRow E))
        → verify_chain xs ≡ none
        → verify_chain ys ≡ none
        → length xs ≡ length ys
        → last_hash genesis_hash xs ≡ last_hash genesis_hash ys
        → xs ≡ ys
    unfolding verify_chain
    verify_chain_injective xs ys fx fy len last =
        (same_history genesis_hash genesis_hash 0 0 xs ys fx fy len last).1
