-- ===== src/Broker/Tests/Signing.antt =====
-- Runs of keys.service.ts and adapter-custody.ts.
use sdidfy.Broker.Custody.{
  RemoteKey, RemoteCustodyAdapter, Custody, init, reload, load_each, cache, to_public_jwk,
  list_public_jwks, health_check,
}
use sdidfy.Broker.Custody.Loaded.{Publishes}
use sdidfy.Broker.Custody.Published.{
  new_custody, built, later, inits, checks_health, CustodyReach-Publishes,
}
use sdidfy.Prelude.{List, none, some, ok, ◌≡◌, refl, true, [], ◌∷◌}
use sdidfy.Broker.Keys.{
  Usage, tally, subtract, usage_of, set_usage, delete_usage, last_failure, probe_signatures,
  signatures, failures, for_token, for_probe, signed, record_signing_failure, begin_flush,
  end_flush,
}
use sdidfy.Prelude.Int.{pos, ◌-ℤ◌, ◌+ℤ◌}
use sdidfy.Broker.Keys.Books.{
  Books, closed_books, BooksReach, opened, next, signs, cannot_sign, begins, reports, Balanced,
  amount,
}
use sdidfy.Broker.Keys.Conservation.{BooksReach-Balanced}

abbrev after_two : Books
after_two = record {
  service =
      begin_flush
        (signed "k1" for_probe (record_signing_failure "k1" 90000 true closed_books.service));
  counted = ("k1", probe_signatures) ∷ ("k1", failures) ∷ [];
}

abbrev reported_once : Usage
reported_once = tally "k1" probe_signatures (tally "k1" failures [])

abbrev after_flush : Books
after_flush = record {
  service = end_flush reported_once (signed "k1" for_token after_two.service);
  counted = ("k1", signatures) ∷ after_two.counted;
}

-- A signature that is made while the summary is being appended stays for the next one.
left_for_next_window : amount signatures (usage_of "k1" after_flush.service.usage) ≡ pos 1
unfolding begin_flush end_flush signed record_signing_failure tally subtract usage_of set_usage
    delete_usage last_failure ◌-ℤ◌ ◌+ℤ◌
left_for_next_window = refl

flush_runs : BooksReach after_flush
unfolding begin_flush end_flush signed record_signing_failure tally subtract usage_of set_usage
    delete_usage last_failure ◌-ℤ◌ ◌+ℤ◌
flush_runs =
    next
      (next
        (next (next (next opened (cannot_sign "k1" 90000 true)) (signs "k1" for_probe))
          (begins refl))
        (signs "k1" for_token))
      (reports reported_once refl)

BooksReach-Balanced_example : Balanced after_flush
BooksReach-Balanced_example = BooksReach-Balanced after_flush flush_runs

-- A backend that hands out a private member, and that loses a key when it is asked again.
abbrev pub key_one : RemoteKey
key_one = record { kid = "k1"; alg = "ES256"; is_active = true }

abbrev pub leaky : List RemoteKey → RemoteCustodyAdapter
leaky remotes = record {
  list_keys = ok remotes;
  get_public_key =
      λ key. ok (record { kid = "x"; alg = "x"; use_of = none; point = "p"; d = some "private" });
  sign_remote = λ key payload. ok (48 ∷ 8 ∷ 2 ∷ 2 ∷ 1 ∷ 2 ∷ 2 ∷ 2 ∷ 3 ∷ 4 ∷ []);
  rotate_remote = none;
  health = none;
}

abbrev pub started : Custody
started = (init (leaky (key_one ∷ [])) new_custody).1

one_public_key :
    list_public_jwks started
    ≡ record { kid = "k1"; alg = "ES256"; use_of = some "sig"; point = "p"; d = none } ∷ []
one_public_key = unfold list_public_jwks init reload load_each cache to_public_jwk in refl

CustodyReach-Publishes_example : Publishes (health_check (leaky []) started).1
CustodyReach-Publishes_example =
    CustodyReach-Publishes (health_check (leaky []) started).1
      (later (later built (inits (leaky (key_one ∷ [])))) (checks_health (leaky [])))
