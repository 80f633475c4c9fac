-- ===== src/Broker/Admin/Subjects.antt =====
-- admin.controller.ts together with pairwise.service.ts: from a citizen to the subject and back.
use Prim.Native.String.{String}
use mathlib.Core.Path.{subst}
use sdidfy.Prelude.{
  ◌≡◌, refl, ap, Bool, true, false, ◌&&◌, List, [], ◌∷◌, none, some, ok, arith, same, same_iff,
  same_refl, Bool-cases, Option-cases, inl, inr, ok-injective,
}
use sdidfy.Broker.World.{World, PairwiseSubject}
use sdidfy.Broker.Table.{first, first-holds, any}
use sdidfy.Broker.Handler.{◌>>=◌}
use sdidfy.Broker.Environment.{Environment}
use sdidfy.Broker.Pairwise.{derive_subject, subject_for, citizen_for_subject}

abbrev pub is_subject : String → String → PairwiseSubject → Bool
is_subject rp_id subject s = same s.rp_id rp_id && same s.subject subject

abbrev pub is_pair : String → String → PairwiseSubject → Bool
is_pair citizen_id rp_id s = same s.citizen_id citizen_id && same s.rp_id rp_id

-- The unique index of the table: a row is the first, and so the one, under its party and subject.
abbrev pub IsIndexed : List PairwiseSubject → Type 0
IsIndexed rows =
    (citizen_id rp_id : String) (row : PairwiseSubject)
    → first (is_pair citizen_id rp_id) rows ≡ some row
    → first (is_subject rp_id row.subject) rows ≡ some row

-- The subject that is derived for this citizen was not derived for another one.
abbrev pub IsOwn : Environment → String → String → String → World → Type 0
IsOwn env citizen_id rp_id salt w =
    (row : PairwiseSubject)
    → first (is_subject rp_id (derive_subject env salt citizen_id)) w.subjects ≡ some row
    → row.citizen_id ≡ citizen_id

any-none :
    (p : PairwiseSubject → Bool) (rows : List PairwiseSubject)
    → first p rows ≡ none
    → any p rows ≡ false
any-none p [] e = refl
any-none p (r ∷ rows) e = elim (Bool-cases (p r)) [
  | inl hit ↦ ground (arith, hit, e)
  | inr miss ↦ rw miss (any-none p rows (rw miss at e))
]

any-some :
    (p : PairwiseSubject → Bool) (rows : List PairwiseSubject) (row : PairwiseSubject)
    → first p rows ≡ some row
    → any p rows ≡ true
any-some p [] row e = absurd cc
any-some p (r ∷ rows) row e = elim (Bool-cases (p r)) [
  | inl hit ↦ rw hit refl
  | inr miss ↦ rw miss (any-some p rows row (rw miss at e))
]

-- The subject that `subjectFor` answers with is resolved to the same citizen afterwards, whether the
-- row was there or is made by the call, when the table keeps its unique index and no other citizen's
-- subject at this relying party has the same HMAC.
pub citizen_for_subject-subject_for :
    (env : Environment) (citizen_id rp_id salt subject : String) (w : World)
    → IsIndexed w.subjects
    → IsOwn env citizen_id rp_id salt w
    → (subject_for env citizen_id rp_id salt w).0 ≡ ok subject
    → (citizen_for_subject rp_id subject (subject_for env citizen_id rp_id salt w).1).0
      ≡ ok (some citizen_id)
unfolding subject_for citizen_for_subject ◌>>=◌
citizen_for_subject-subject_for env citizen_id rp_id salt subject w indexed own e =
    elim (Option-cases (first (is_pair citizen_id rp_id) w.subjects)) [
      | inl new ↦
          let derived = derive_subject env salt citizen_id in
          let answered : derived ≡ subject = ok-injective (rw new at e) in
          subst (λ (s : String). Resolves s) answered
            (elim (Option-cases (first (is_subject rp_id derived) w.subjects)) [
              | inl free ↦
                  rw
                    (
                      new,
                      any-none (is_subject rp_id derived) w.subjects free,
                      same_refl rp_id,
                      same_refl derived,
                    )
                    refl
              | inr (other, met) ↦
                  rw (new, any-some (is_subject rp_id derived) w.subjects other met, met)
                    (ap (λ (c : String). ok (some c)) (own other met))
            ])
      | inr (row, found) ↦
          let answered : row.subject ≡ subject = ok-injective (rw found at e) in
          subst (λ (s : String). Resolves s) answered
            (rw (found, indexed citizen_id rp_id row found)
              (ap (λ (c : String). ok (some c)) (holder row found)))
    ]
  where
    Resolves : String → Type 0
    Resolves s =
        (citizen_for_subject rp_id s (subject_for env citizen_id rp_id salt w).1).0
        ≡ ok (some citizen_id)

    holder :
        (row : PairwiseSubject)
        → first (is_pair citizen_id rp_id) w.subjects ≡ some row
        → row.citizen_id ≡ citizen_id
    holder row found =
        let pair = first-holds (is_pair citizen_id rp_id) w.subjects row found in
        (same_iff row.citizen_id citizen_id).0 (ground (arith, pair))
