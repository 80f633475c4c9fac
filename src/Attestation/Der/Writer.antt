-- ===== src/Attestation/Der/Writer.antt =====
-- A DER writer, written from X.690 and not from der.ts: what the reader is held against.
use Prim.Native.Nat.{max}
use sdidfy.Prelude.{
  ℕ, suc, ◌+◌, ◌*◌, ◌/◌, ◌%◌, ◌^◌, ◌<◌, ◌≡◌, Bool, true, false, List, [], ◌∷◌, ◌++◌, ltb,
  if◌then◌else◌, length,
}
use sdidfy.Attestation.Digits.{be_bytes, septets}
use sdidfy.Attestation.Der.{
  DerTagClass, universal, application, context, private_use, DerNode, DerNodes, der_node, nil, cons,
}

unfoldable pub class_bits : DerTagClass → ℕ
class_bits universal = 0
class_bits application = 1
class_bits context = 2
class_bits private_use = 3

unfoldable pub form_bit : Bool → ℕ
form_bit true = 1
form_bit false = 0

-- The identifier octets: class, form and the tag number, in the low or the high form.
unfoldable pub write_tag : DerTagClass → Bool → ℕ → List ℕ
write_tag c k n =
    if ltb n 31
    then (class_bits c * 64 + form_bit k * 32 + n) ∷ []
    else (class_bits c * 64 + form_bit k * 32 + 31) ∷ septets (n / 128) ++ (n % 128) ∷ []

-- The shortest length octets.
unfoldable pub write_length : ℕ → List ℕ
write_length n = if ltb n 128 then n ∷ [] else (128 + length (be_bytes n)) ∷ be_bytes n

unfoldable pub write : DerNode → List ℕ
write (der_node c k n content children) =
    write_tag c k n ++ write_length (length content) ++ content

abbrev pub write_all : DerNodes → List ℕ
write_all nil = []
write_all (cons n ns) = write n ++ write_all ns

-- The content of a constructed element is its children's encodings; a primitive one has none.
abbrev pub Fits : Bool → List ℕ → DerNodes → Type 0
Fits true content children = content ≡ write_all children
Fits false content children = children ≡ nil

abbrev mutual
  pub IsDer : DerNode → Type 0
  IsDer (der_node c k n content children) =
      (n < 2 ^ 28) × (length content < 2 ^ 32) × Fits k content children × AreDer children

  pub AreDer : DerNodes → Type 0
  AreDer nil = Unit {0}
  AreDer (cons n ns) = IsDer n × AreDer ns

-- Nesting, and the number of elements.
abbrev mutual
  pub depth : DerNode → ℕ
  depth (der_node c k n content children) = suc (depth_all children)

  pub depth_all : DerNodes → ℕ
  depth_all nil = 0
  depth_all (cons n ns) = max (depth n) (depth_all ns)

abbrev mutual
  pub count : DerNode → ℕ
  count (der_node c k n content children) = suc (count_all children)

  pub count_all : DerNodes → ℕ
  count_all nil = 0
  count_all (cons n ns) = count n + count_all ns
