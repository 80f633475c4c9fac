-- ===== src/Broker/Store.antt =====
-- Redis as the broker uses it: SET with EX, GET, GETDEL, DEL, INCR and EXPIRE on one key space. The
-- clock is an argument, and an entry counts as absent from the moment it expires.
use Prim.Native.String.{String}
use sdidfy.Prelude.{
  ℕ, ◌≡◌, refl, Bool, true, ◌&&◌, List, [], ◌∷◌, Option, none, some, ltb, if◌then◌else◌, Bool-cases,
  inl, inr, ◌≢◌, sym, ap, ◌∙◌, same, same_iff, same_refl,
}

pub record Kept (V : Type 0) : Type 0 where
  pub key : String
  pub value : V
  pub dies_at : Option ℕ

abbrev pub Store : Type 0 → Type 0
Store V = List (Kept V)

abbrev pub is_live : ℕ → Option ℕ → Bool
is_live now none = true
is_live now (some t) = ltb now t

module _ {V : Type 0} where
  unfoldable pub entry : ℕ → String → Store V → Option (Kept V)
  entry now k [] = none
  entry now k (e ∷ s) = if same e.key k && is_live now e.dies_at then some e else entry now k s

  abbrev pub value_of : Option (Kept V) → Option V
  value_of none = none
  value_of (some e) = some e.value

  unfoldable pub get : ℕ → String → Store V → Option V
  unfolding entry
  get now k s = value_of (entry now k s)

  unfoldable pub del : String → Store V → Store V
  del k [] = []
  del k (e ∷ s) = if same e.key k then del k s else e ∷ del k s

  unfoldable pub set : String → V → Option ℕ → Store V → Store V
  unfolding del
  set k v dies s = record { key = k; value = v; dies_at = dies } ∷ del k s

  -- EXPIRE on a key that is there.
  unfoldable pub expire : String → ℕ → Store V → Store V
  expire k t [] = []
  expire k t (e ∷ s) =
      if same e.key k then record e { dies_at = some t } ∷ expire k t s else e ∷ expire k t s

  pub entry-del : (now : ℕ) (k : String) (s : Store V) → entry now k (del k s) ≡ none
  unfolding entry del
  entry-del now k [] = refl
  entry-del now k (e ∷ s) = elim (Bool-cases (same e.key k)) [
    | inl hit ↦ rw hit (entry-del now k s)
    | inr miss ↦ rw (miss, miss) (entry-del now k s)
  ]

  pub get-del : (now : ℕ) (k : String) (s : Store V) → get now k (del k s) ≡ none
  unfolding get
  get-del now k s = ap value_of (entry-del now k s)

  pub get-set :
      (now : ℕ) (k : String) (v : V) (dies : Option ℕ) (s : Store V)
      → get now k (set k v dies s) ≡ (if is_live now dies then some v else none)
  unfolding get set entry
  get-set now k v dies s = elim (Bool-cases (is_live now dies)) [
    | inl up ↦ rw (same_refl k, up) refl
    | inr down ↦ rw (same_refl k, down) (get-del now k s)
  ]

  entry-del_other :
      (now : ℕ) (k j : String) (s : Store V) → k ≢ j → entry now k (del j s) ≡ entry now k s
  unfolding entry del
  entry-del_other now k j [] ne = refl
  entry-del_other now k j (e ∷ s) ne = elim (Bool-cases (same e.key j)) [
    | inl hit ↦ elim (Bool-cases (same e.key k)) [
      | inl both ↦ absurd (ne (sym ((same_iff e.key k).0 both) ∙ (same_iff e.key j).0 hit))
      | inr miss ↦ rw (hit, miss) (entry-del_other now k j s ne)
    ]
    | inr keeps ↦ elim (Bool-cases (same e.key k && is_live now e.dies_at)) [
      | inl found ↦ rw (keeps, found) refl
      | inr lost ↦ rw (keeps, lost) (entry-del_other now k j s ne)
    ]
  ]

  pub get-del_other :
      (now : ℕ) (k j : String) (s : Store V) → k ≢ j → get now k (del j s) ≡ get now k s
  unfolding get
  get-del_other now k j s ne = ap value_of (entry-del_other now k j s ne)

  pub get-set_other :
      (now : ℕ) (k j : String) (v : V) (dies : Option ℕ) (s : Store V)
      → k ≢ j
      → get now k (set j v dies s) ≡ get now k s
  unfolding get set entry
  get-set_other now k j v dies s ne = elim (Bool-cases (same j k)) [
    | inl hit ↦ absurd (ne (sym ((same_iff j k).0 hit)))
    | inr miss ↦ rw miss (get-del_other now k j s ne)
  ]

  pub entry-set :
      (now : ℕ) (k : String) (v : V) (dies : Option ℕ) (s : Store V)
      → entry now k (set k v dies s)
        ≡ (if is_live now dies then some (record { key = k; value = v; dies_at = dies }) else none)
  unfolding set entry
  entry-set now k v dies s = elim (Bool-cases (is_live now dies)) [
    | inl up ↦ rw (same_refl k, up) refl
    | inr down ↦ rw (same_refl k, down) (entry-del now k s)
  ]

  entry-expire-del :
      (now t : ℕ) (k : String) (s : Store V) → entry now k (expire k t (del k s)) ≡ none
  unfolding entry del expire
  entry-expire-del now t k [] = refl
  entry-expire-del now t k (e ∷ s) = elim (Bool-cases (same e.key k)) [
    | inl hit ↦ rw hit (entry-expire-del now t k s)
    | inr miss ↦ rw (miss, miss, miss) (entry-expire-del now t k s)
  ]

  pub entry-expire-set :
      (now t : ℕ) (k : String) (v : V) (dies : Option ℕ) (s : Store V)
      → entry now k (expire k t (set k v dies s))
        ≡ (if ltb now t then some (record { key = k; value = v; dies_at = some t }) else none)
  unfolding set entry expire
  entry-expire-set now t k v dies s = elim (Bool-cases (ltb now t)) [
    | inl up ↦ rw (same_refl k, same_refl k, up) refl
    | inr down ↦ rw (same_refl k, same_refl k, down) (entry-expire-del now t k s)
  ]
