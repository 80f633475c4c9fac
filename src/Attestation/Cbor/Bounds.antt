-- ===== src/Attestation/Cbor/Bounds.antt =====
-- cbor.ts: the caps on nesting and on items, and the refusal of a repeated map key.
use Prim.Native.Nat.{max}
use sdidfy.Prelude.{ℕ, suc, ◌+◌, ◌≡◌, ◌≢◌, refl, sym, ap, ◌∙◌, List, [], ◌∷◌, arith, true, false}
use mathlib.Core.Bool.{false≢true}
use sdidfy.Prelude.Int.{pos, negsuc}
use sdidfy.Attestation.Cbor.{
  CborKey, text_key, number_key, CborValue, array, map_value, CborValues, nil, cons, CborMap, empty,
  entry, same_points, same_key, has_key, set_last,
}

-- Nesting, and the number of items, keys included.
abbrev mutual
  pub depth : CborValue → ℕ
  depth (array vs) = suc (depth_all vs)
  depth (map_value m) = suc (depth_map m)
  depth _ = 1

  pub depth_all : CborValues → ℕ
  depth_all nil = 0
  depth_all (cons v vs) = max (depth v) (depth_all vs)

  pub depth_map : CborMap → ℕ
  depth_map empty = 0
  depth_map (entry k v m) = max (depth v) (depth_map m)

abbrev mutual
  pub weight : CborValue → ℕ
  weight (array vs) = suc (weight_all vs)
  weight (map_value m) = suc (weight_map m)
  weight _ = 1

  pub weight_all : CborValues → ℕ
  weight_all nil = 0
  weight_all (cons v vs) = weight v + weight_all vs

  pub weight_map : CborMap → ℕ
  weight_map empty = 0
  weight_map (entry k v m) = 1 + weight v + weight_map m

abbrev pub Lacks : CborKey → CborMap → Type 0
Lacks k empty = Unit {0}
Lacks k (entry j v m) = (j ≢ k) × Lacks k m

-- No map holds one key twice, at any depth.
abbrev mutual
  pub IsDistinct : CborValue → Type 0
  IsDistinct (array vs) = AreDistinct vs
  IsDistinct (map_value m) = HasDistinctKeys m
  IsDistinct _ = Unit {0}

  pub AreDistinct : CborValues → Type 0
  AreDistinct nil = Unit {0}
  AreDistinct (cons v vs) = IsDistinct v × AreDistinct vs

  pub HasDistinctKeys : CborMap → Type 0
  HasDistinctKeys empty = Unit {0}
  HasDistinctKeys (entry k v m) = Lacks k m × IsDistinct v × HasDistinctKeys m

same_points_refl : (a : List ℕ) → same_points a a ≡ true
unfolding same_points
same_points_refl [] = refl
same_points_refl (a ∷ as') = ground (arith, same_points_refl as')

same_key_refl : (k : CborKey) → same_key k k ≡ true
unfolding same_key
same_key_refl (text_key a) = same_points_refl a
same_key_refl (number_key (pos a)) = ground arith
same_key_refl (number_key (negsuc a)) = ground arith

same_key-differ : (j k : CborKey) → same_key j k ≡ false → j ≢ k
same_key-differ j k off e =
    false≢true (sym off ∙ ap (λ (i : CborKey). same_key j i) (sym e) ∙ same_key_refl j)

-- A key that is not found is not the first one, nor among the others.
pub has_key-entry :
    (k j : CborKey) (w : CborValue) (m : CborMap)
    → has_key k (entry j w m) ≡ false
    → (same_key j k ≡ false) × (has_key k m ≡ false)
unfolding has_key
has_key-entry k j w m new = (ground (arith, new), ground (arith, new))

Lacks-set_last :
    (j k : CborKey) (v : CborValue) (m : CborMap)
    → has_key k m ≡ false
    → k ≢ j
    → Lacks j m
    → Lacks j (set_last k v m)
unfolding set_last
Lacks-set_last j k v empty new differ h = (differ, tt)
Lacks-set_last j k v (entry i w m) new differ (this, h) =
    let (other, new') = has_key-entry k i w m new in
    rw other (this, Lacks-set_last j k v m new' differ h)

pub set_last-HasDistinctKeys :
    (k : CborKey) (v : CborValue) (m : CborMap)
    → has_key k m ≡ false
    → IsDistinct v
    → HasDistinctKeys m
    → HasDistinctKeys (set_last k v m)
unfolding set_last
set_last-HasDistinctKeys k v empty new d ds = (tt, d, tt)
set_last-HasDistinctKeys k v (entry j w m) new d (once, dw, ds) =
    let (other, new') = has_key-entry k j w m new in
    rw other (
      Lacks-set_last j k v m new' (λ e. same_key-differ j k other (sym e)) once,
      dw,
      set_last-HasDistinctKeys k v m new' d ds,
    )

pub depth-set_last :
    (k : CborKey) (v : CborValue) (m : CborMap)
    → has_key k m ≡ false
    → depth_map (set_last k v m) ≡ max (depth_map m) (depth v)
unfolding set_last
depth-set_last k v empty new = omega arith
depth-set_last k v (entry j w m) new =
    let (other, new') = has_key-entry k j w m new in
    rw other (omega (arith, depth-set_last k v m new'))

pub weight-set_last :
    (k : CborKey) (v : CborValue) (m : CborMap)
    → has_key k m ≡ false
    → weight_map (set_last k v m) ≡ weight_map m + (1 + weight v)
unfolding set_last
weight-set_last k v empty new = omega arith
weight-set_last k v (entry j w m) new =
    let (other, new') = has_key-entry k j w m new in
    rw other (omega (arith, weight-set_last k v m new'))
