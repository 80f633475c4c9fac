-- ===== src/Attestation/X509/Window.antt =====
-- x509.ts: the dates of a chain, and its CAs.
use sdidfy.Prelude.{
  ℕ, ◌≤◌, ◌≡◌, ◌↔◌, refl, true, false, not, ◌&&◌, Option, none, some, List, [], ◌∷◌, ok, ◌>>=◌,
  throw_if, >>=-eq-ok, throw_if-eq-ok, >>-eq-ok, arith, All,
}
use sdidfy.Prelude.Int.{ℤ, pos, negsuc}
use sdidfy.Attestation.Node.{Certificate}
use sdidfy.Attestation.X509.{not_a_ca, check_window, check_certificates}

-- `from ≤ now` and `now ≤ to`, for a date that may lie before 1970.
abbrev pub Begun : ℕ → Option ℤ → Type 0
Begun now (some (pos n)) = n ≤ now
Begun now (some (negsuc n)) = Unit {0}
Begun now none = ⊥

abbrev pub NotOver : ℕ → Option ℤ → Type 0
NotOver now (some (pos n)) = now ≤ n
NotOver now _ = ⊥

abbrev pub IsInForce : ℕ → Certificate → Type 0
IsInForce now cert = Begun now cert.valid_from × NotOver now cert.valid_to

abbrev pub IsCa : Certificate → Type 0
IsCa cert = cert.ca ≡ true

check_window_iff :
    (now : ℕ) (from to : Option ℤ)
    → (check_window now from to ≡ ok tt) ↔ (Begun now from × NotOver now to)
check_window_iff now none to = (λ e. cc, λ h. absurd h.0)
check_window_iff now (some from) none = (λ e. cc, λ h. absurd h.1)
check_window_iff now (some (pos m)) (some (pos n)) =
    (λ e. (ground arith, ground arith), λ (a, b). ground arith)
check_window_iff now (some (pos m)) (some (negsuc n)) =
    (λ e. absurd (ground arith), λ (a, b). absurd b)
check_window_iff now (some (negsuc m)) (some (pos n)) =
    (λ e. (tt, ground arith), λ (a, b). ground arith)
check_window_iff now (some (negsuc m)) (some (negsuc n)) = (λ e. cc, λ (a, b). absurd b)

check_certificates_later :
    (now : ℕ) (certs : List Certificate)
    → (check_certificates now true certs ≡ ok tt) ↔ (All (IsInForce now) certs × All IsCa certs)
unfolding check_certificates
check_certificates_later now [] = (λ e. (tt, tt), λ h. refl)
check_certificates_later now (c ∷ cs) = (
  λ e.
      let (a, window, rest) =
        >>=-eq-ok (check_window now c.valid_from c.valid_to)
          (λ _. throw_if (true && not c.ca) not_a_ca >>= λ _. check_certificates now true cs) e in
      let (is_ca, tail) =
        throw_if-eq-ok (true && not c.ca) not_a_ca (check_certificates now true cs) rest in
      let (inside, cas) = (check_certificates_later now cs).0 tail in
      (
        ((check_window_iff now c.valid_from c.valid_to).0 window, inside),
        (ground (arith, is_ca), cas),
      ),
  λ ((here, inside), (is_ca, cas)).
      rw
        (
          (check_window_iff now c.valid_from c.valid_to).1 here,
          is_ca,
          (check_certificates_later now cs).1 (inside, cas),
        )
        refl,
)

pub check_certificates_iff :
    (now : ℕ) (leaf : Certificate) (certs : List Certificate)
    → (check_certificates now false (leaf ∷ certs) ≡ ok tt)
      ↔ (All (IsInForce now) (leaf ∷ certs) × All IsCa certs)
unfolding check_certificates
check_certificates_iff now leaf certs = (
  λ e.
      let (window, rest) =
        >>-eq-ok (check_window now leaf.valid_from leaf.valid_to)
          (check_certificates now true certs) e in
      let (inside, cas) = (check_certificates_later now certs).0 rest in
      (((check_window_iff now leaf.valid_from leaf.valid_to).0 window, inside), cas),
  λ ((here, inside), cas).
      rw
        (
          (check_window_iff now leaf.valid_from leaf.valid_to).1 here,
          (check_certificates_later now certs).1 (inside, cas),
        )
        refl,
)
