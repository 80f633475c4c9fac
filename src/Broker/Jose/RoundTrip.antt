-- ===== src/Broker/Jose/RoundTrip.antt =====
-- key-custody.ts: the conversion of a signature, held against a writer of DER.
use mathlib.Core.Path.{subst, ap₂}
use mathlib.Core.List.{append-nil}
use sdidfy.Prelude.{
  ℕ, ◌+◌, ◌^◌, ◌≤◌, ◌<◌, ◌≡◌, ◌≢◌, refl, ap, ◌∙◌, true, false, List, [], ◌∷◌, ◌++◌, ok, arith, ltb,
  ◌==◌, length, length-append, take_prefix, drop_prefix,
}
use sdidfy.Attestation.Der.{DerNode, DerNodes, der_node, universal, nil, cons}
use sdidfy.Attestation.Der.Writer.{write, write_all, write_tag, write_length, class_bits, form_bit}
use sdidfy.Broker.Jose.{
  read_integer, pad, both_coordinates, sequence_length, der_ecdsa_to_jose_signature,
  normalize_ecdsa_signature,
}
use sdidfy.Broker.Jose.Converts.{
  fixed_width, integer_bytes, integer_bytes-length, pad-integer_bytes,
}

-- `SEQUENCE { INTEGER r, INTEGER s }`
abbrev pub integer_node : List ℕ → DerNode
integer_node content = der_node universal false 2 content nil

abbrev pub coordinates : ℕ → ℕ → DerNodes
coordinates r s = cons (integer_node (integer_bytes r)) (cons (integer_node (integer_bytes s)) nil)

abbrev pub signature_node : ℕ → ℕ → DerNode
signature_node r s = der_node universal true 16 (write_all (coordinates r s)) (coordinates r s)

write_length-short : (n : ℕ) → n < 128 → write_length n ≡ n ∷ []
unfolding write_length
write_length-short n h = ground (arith, h)

write-integer_node : (c : List ℕ) → length c < 128 → write (integer_node c) ≡ 2 ∷ length c ∷ c
unfolding write write_tag class_bits form_bit
write-integer_node c h = ap (λ (l : List ℕ). (2 ∷ []) ++ l ++ c) (write_length-short (length c) h)

read_integer-content :
    (c rest : List ℕ)
    → 0 < length c
    → length c < 128
    → read_integer (2 ∷ length c ∷ (c ++ rest)) ≡ ok (c, rest)
unfolding read_integer
read_integer-content c rest lo hi =
    rw (take_prefix c rest, drop_prefix c rest) (ground (arith, lo, hi, length-append c rest))

-- The body of a signature.
abbrev body_of : List ℕ → List ℕ → List ℕ
body_of r s = 2 ∷ length r ∷ (r ++ (2 ∷ length s ∷ (s ++ [])))

both_coordinates-body :
    (w : ℕ) (r s fr fs : List ℕ)
    → 0 < length r
    → length r < 128
    → 0 < length s
    → length s < 128
    → pad w r ≡ ok fr
    → pad w s ≡ ok fs
    → both_coordinates w (body_of r s) ≡ ok (fr ++ fs)
unfolding both_coordinates
both_coordinates-body w r s fr fs lr hr ls hs pr ps =
    rw
      (
        read_integer-content r (2 ∷ length s ∷ (s ++ [])) lr hr,
        pr,
        read_integer-content s [] ls hs,
        ps,
      )
      refl

body_of-length : (r s : List ℕ) → length (body_of r s) ≡ 4 + length r + length s
body_of-length r s =
    omega (arith, length-append r (2 ∷ length s ∷ (s ++ [])), ap length (append-nil s))

write-signature_node :
    (r s : ℕ)
    → length (integer_bytes r) ≤ 33
    → length (integer_bytes s) ≤ 33
    → write (signature_node r s)
      ≡ 48
        ∷ length (body_of (integer_bytes r) (integer_bytes s))
        ∷ body_of (integer_bytes r) (integer_bytes s)
unfolding write write_tag class_bits form_bit
write-signature_node r s hr hs =
    let body = body_of (integer_bytes r) (integer_bytes s) in
    let is_body : write_all (coordinates r s) ≡ body =
      ap₂ (λ (a b : List ℕ). a ++ (b ++ []))
        (write-integer_node (integer_bytes r) (omega (arith, hr)))
        (write-integer_node (integer_bytes s) (omega (arith, hs))) in
    ap (λ (l : List ℕ). (48 ∷ []) ++ write_length (length l) ++ l) is_body
    ∙ ap (λ (l : List ℕ). (48 ∷ []) ++ l ++ body)
        (write_length-short (length body)
          (omega (arith, body_of-length (integer_bytes r) (integer_bytes s), hr, hs)))

sequence-read :
    (body out : List ℕ)
    → length body < 128
    → both_coordinates 32 body ≡ ok out
    → der_ecdsa_to_jose_signature (48 ∷ length body ∷ body) 32 ≡ ok out
unfolding der_ecdsa_to_jose_signature sequence_length
sequence-read body out short h = ground (arith, short, h)

normalize-read :
    (body out : List ℕ)
    → length body < 128
    → both_coordinates 32 body ≡ ok out
    → 8 < length (48 ∷ length body ∷ body)
    → length (48 ∷ length body ∷ body) ≢ 64
    → normalize_ecdsa_signature (48 ∷ length body ∷ body) ≡ ok out
unfolding normalize_ecdsa_signature
normalize-read body out short h long other =
    let is_other : (length (48 ∷ length body ∷ body) == 64) ≡ false = ground (arith, other) in
    let is_long : ltb 8 (length (48 ∷ length body ∷ body)) ≡ true = ground (arith, long) in
    rw (is_other, is_long) (sequence-read body out short h)

-- A DER signature of two positive numbers below 256 ^ 32 becomes these two numbers, each in 32 bytes, the
-- most significant first, if its encoding has more than 8 bytes and not exactly 64.
pub normalize_ecdsa_signature-write :
    (r s : ℕ)
    → 0 < r
    → r < 256 ^ 32
    → 0 < s
    → s < 256 ^ 32
    → 8 < length (write (signature_node r s))
    → length (write (signature_node r s)) ≢ 64
    → normalize_ecdsa_signature (write (signature_node r s))
      ≡ ok (fixed_width 32 r ++ fixed_width 32 s)
normalize_ecdsa_signature-write r s lr hr ls hs long other =
    let (some_r, most_r) = integer_bytes-length 32 r hr in
    let (some_s, most_s) = integer_bytes-length 32 s hs in
    let body = body_of (integer_bytes r) (integer_bytes s) in
    let size = body_of-length (integer_bytes r) (integer_bytes s) in
    let is_written = write-signature_node r s most_r most_s in
    let converted =
      both_coordinates-body 32 (integer_bytes r) (integer_bytes s) (fixed_width 32 r)
        (fixed_width 32 s) some_r (omega (arith, most_r)) some_s (omega (arith, most_s))
        (pad-integer_bytes 32 r hr lr) (pad-integer_bytes 32 s hs ls) in
    ap normalize_ecdsa_signature is_written
    ∙ normalize-read body (fixed_width 32 r ++ fixed_width 32 s)
        (omega (arith, size, most_r, most_s)) converted
        (subst (λ (l : List ℕ). 8 < length l) is_written long)
        (subst (λ (l : List ℕ). length l ≢ 64) is_written other)
