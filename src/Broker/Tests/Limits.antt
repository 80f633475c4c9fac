-- ===== src/Broker/Tests/Limits.antt =====
-- Runs of the rate limits, the token revocation and the audit trail of apps/broker.
use Prim.Native.String.{String, ◌++◌}
use text.Mathlib.TextLemmas.{append_cancel_left}
use sdidfy.Prelude.{ℕ, ◌≡◌, refl, List, [], ◌∷◌, none, some, ok}
use sdidfy.Broker.World.{World}
use sdidfy.Broker.Store.{get, entry}
use sdidfy.Broker.Handler.{◌>>=◌}
use sdidfy.Broker.RateLimit.{assert_not_locked_out, clear_failures}
use sdidfy.Broker.RateLimit.Windows.{clear_failures-unlocks}
use sdidfy.Broker.Consent.{record_grant, revoke_grant}
use sdidfy.Broker.Pairwise.{citizen_for_subject}
use sdidfy.Broker.Userinfo.{userinfo, TokenClaims, Attributes, AttributeAnswer, attributes}
use sdidfy.Broker.Userinfo.Entitled.{IsEntitled, userinfo-IsEntitled}
use sdidfy.Broker.Consent.History.{ConsentOp, grants, revokes, apply_all}
use sdidfy.Broker.Audit.{ChainRow, verify_chain, verify_chain_injective}
use sdidfy.Broker.Samples.{world}

no_counter : entry 5 "rl:k" world.counters ≡ none
unfolding entry
no_counter = refl

abbrev times : List ℕ
times = 5 ∷ 6 ∷ 7 ∷ []

abbrev failing : World
failing = record world {
  counters = record { key = "lockout:k"; value = 4; dies_at = some 900 } ∷ [];
}

four_failures :
    entry 5 "lockout:k" failing.counters
    ≡ some (record { key = "lockout:k"; value = 4; dies_at = some 900 })
unfolding entry
four_failures = refl

clear_failures-unlocks_run :
    (assert_not_locked_out 10 "k" 5 (clear_failures "k" failing).1).0 ≡ ok tt
clear_failures-unlocks_run = clear_failures-unlocks "k" 5 900 10 failing

abbrev claims : TokenClaims
claims = record {
  jti = some "j1";
  sub = some "pairwise";
  client_id = some "bank";
  audience = "bank" ∷ [];
  token_use = "access";
  scopes = "openid" ∷ "profile" ∷ [];
  exp = some 100;
}

abbrev known : String → List String → AttributeAnswer
known subject scopes =
    attributes (record { name = some "Amina"; date_of_birth = none; address = some "Kigali" })

-- The first consent was taken back, the second one stands.
abbrev consents : List ConsentOp
consents =
    grants 1 "g1" "c1" "r1" ("openid" ∷ "profile" ∷ []) "standing-grant"
    ∷ revokes 2 "c1" "g1"
    ∷ grants 3 "g2" "c1" "r1" ("profile" ∷ "openid" ∷ []) "standing-grant"
    ∷ []

abbrev answer : String × Attributes
answer = ("pairwise", record { name = some "Amina"; date_of_birth = none; address = none })

userinfo-IsEntitled_example : IsEntitled 5 claims consents (apply_all consents world) answer
unfolding userinfo citizen_for_subject get entry record_grant revoke_grant ◌>>=◌
userinfo-IsEntitled_example =
    userinfo-IsEntitled known 5 claims consents world answer refl (refl, (tt, (refl, tt))) refl

abbrev chained : String → String → String
chained prev event = prev ++ event

abbrev trail : List (ChainRow String)
trail = record { event = "a"; prev_hash = "genesis"; hash = "genesisa" } ∷ []

trail_fits : verify_chain chained trail ≡ none
unfolding verify_chain
trail_fits = refl

-- A hash without collisions on trails of one kind of event.
abbrev marked : String → Unit {0} → String
marked prev e = "t" ++ prev

marked_collision_free :
    (p q : String) (e f : Unit {0}) → marked p e ≡ marked q f → (p ≡ q) × (e ≡ f)
marked_collision_free p q e f h = (append_cancel_left "t" p q h, refl)

abbrev marks : List (ChainRow (Unit {0}))
marks = record { event = tt; prev_hash = "genesis"; hash = "tgenesis" } ∷ []

marks_fit : verify_chain marked marks ≡ none
unfolding verify_chain
marks_fit = refl

verify_chain_injective_example : marks ≡ marks
verify_chain_injective_example =
    verify_chain_injective marked marked_collision_free marks marks marks_fit marks_fit refl refl
