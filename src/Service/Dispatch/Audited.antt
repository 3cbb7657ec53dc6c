-- ===== src/Service/Dispatch/Audited.antt =====
-- The actors that are written beside the assignments of a run.
use fieldpro_pilot.Base.{
  ◌≡◌, refl, ap, ◌∙◌, sym, subst, true, Option, none, some, List, [], ◌∷◌, ◌++◌, arith, find, All,
  Bool-cases, Option-cases, ◌==◌, Text, text, ◌⊎◌, inl, inr, ℕ,
}
use fieldpro_pilot.Service.{Db, Services, ok, Assignment, ActorAudit}
use fieldpro_pilot.Service.Visit.{has_audit, insert_audit}
use fieldpro_pilot.Service.Dispatch.{creator_or_system, audit_each, audit_assignments}

-- the row of an actor, whose id is only there encrypted
pub record IsActor (secret : Text × Text) (x : ActorAudit) : Type 0 where
  pub sentinel : x.actor_ref ≡ text "encrypted"
  pub ciphertext : x.actor_ref_ciphertext ≡ secret.0
  pub key_id : x.actor_ref_key_id ≡ secret.1

-- An assignment has the row of an actor afterwards: one that was there, or the one written.
pub record Audited (secret : Text × Text) (before after : List ActorAudit) (a : Assignment)
    : Type 0 where
  pub audit : ActorAudit
  pub there : has_audit a.id after ≡ some audit
  pub by_actor : (has_audit a.id before ≡ some audit) ⊎ IsActor secret audit

find_behind :
    (k : ℕ) (audits : List ActorAudit) (x : ActorAudit)
    → find (λ a. a.subject_id == k) (audits ++ x ∷ [])
      ≡ elim (find (λ a. a.subject_id == k) audits) [
        | none ↦ find (λ a. a.subject_id == k) (x ∷ [])
        | some y ↦ some y
      ]
find_behind k [] x = refl
find_behind k (y ∷ audits) x = elim (Bool-cases (y.subject_id == k)) [
  | inl e ↦ rw e refl
  | inr e ↦ rw e (find_behind k audits x)
]

find_behind-none :
    (k : ℕ) (audits : List ActorAudit) (x : ActorAudit)
    → has_audit k audits ≡ none
    → has_audit k (audits ++ x ∷ []) ≡ has_audit k (x ∷ [])
find_behind-none k audits x h = find_behind k audits x ∙ rw h refl

find_behind-some :
    (k : ℕ) (audits : List ActorAudit) (x y : ActorAudit)
    → has_audit k audits ≡ some y
    → has_audit k (audits ++ x ∷ []) ≡ some y
find_behind-some k audits x y h = find_behind k audits x ∙ rw h refl

single : (k : ℕ) (r x : ActorAudit) → has_audit k (r ∷ []) ≡ some x → x ≡ r
single k r x h = elim (Bool-cases (r.subject_id == k)) [
  | inl e ↦ ground arith
  | inr e ↦ absurd (ground arith)
]

insert_audit-some :
    (r y : ActorAudit) (audits : List ActorAudit)
    → has_audit r.subject_id audits ≡ some y
    → insert_audit r audits ≡ audits
insert_audit-some r y audits h = unfold insert_audit in rw (h, insert_audit) refl

insert_audit-none :
    (r : ActorAudit) (audits : List ActorAudit)
    → has_audit r.subject_id audits ≡ none
    → insert_audit r audits ≡ audits ++ r ∷ []
insert_audit-none r audits h = unfold insert_audit in rw (h, insert_audit) refl

insert_audit-kept :
    (k : ℕ) (r x : ActorAudit) (audits : List ActorAudit)
    → has_audit k audits ≡ some x
    → has_audit k (insert_audit r audits) ≡ some x
insert_audit-kept k r x audits h = elim (Option-cases (has_audit r.subject_id audits)) [
  | inl e ↦ rw (insert_audit-none r audits e) (find_behind-some k audits r x h)
  | inr (y, e) ↦ rw (insert_audit-some r y audits e) h
]

insert_audit-own :
    (r : ActorAudit) (audits : List ActorAudit)
    → has_audit r.subject_id audits ≡ none
    → has_audit r.subject_id (insert_audit r audits) ≡ some r
insert_audit-own r audits h =
    let here : (r.subject_id == r.subject_id) ≡ true = ground arith in
    rw (insert_audit-none r audits h) (find_behind-none r.subject_id audits r h ∙ rw here refl)

insert_audit-from :
    (k : ℕ) (r x : ActorAudit) (audits : List ActorAudit)
    → has_audit k (insert_audit r audits) ≡ some x
    → (has_audit k audits ≡ some x) ⊎ (x ≡ r)
insert_audit-from k r x audits h = elim (Option-cases (has_audit r.subject_id audits)) [
  | inr (y, e) ↦ inl (ap (has_audit k) (sym (insert_audit-some r y audits e)) ∙ h)
  | inl e ↦
      let added : has_audit k (audits ++ r ∷ []) ≡ some x =
        ap (has_audit k) (sym (insert_audit-none r audits e)) ∙ h in
      elim (Option-cases (has_audit k audits)) [
        | inr (z, f) ↦ inl (f ∙ sym (find_behind-some k audits r z f) ∙ added)
        | inl f ↦ inr (single k r x (sym (find_behind-none k audits r f) ∙ added))
      ]
]

module _ (secret : Text × Text) where
  abbrev actor_row : Assignment → ActorAudit
  actor_row a = record {
    subject_id = a.id;
    org_id = a.org_id;
    actor_ref = text "encrypted";
    actor_ref_ciphertext = secret.0;
    actor_ref_key_id = secret.1;
  }

  audit_each-kept :
      (k : ℕ) (x : ActorAudit) (rows : List Assignment) (audits : List ActorAudit)
      → has_audit k audits ≡ some x
      → has_audit k (audit_each secret rows audits) ≡ some x
  unfolding audit_each
  audit_each-kept k x [] audits h = h
  audit_each-kept k x (a ∷ rows) audits h =
      audit_each-kept k x rows (insert_audit (actor_row a) audits)
        (insert_audit-kept k (actor_row a) x audits h)

  -- What was there before a row, or is that row, was there before it or is an actor's.
  Audited-before :
      (r a : Assignment) (audits after : List ActorAudit)
      → Audited secret (insert_audit (actor_row r) audits) after a
      → Audited secret audits after a
  Audited-before r a audits after h = record {
    audit = h.audit;
    there = h.there;
    by_actor = elim h.by_actor [
      | inr actor ↦ inr actor
      | inl was ↦ elim (insert_audit-from a.id (actor_row r) h.audit audits was) [
        | inl earlier ↦ inl earlier
        | inr same ↦ inr (record {
          sentinel = ap (λ (x : ActorAudit). x.actor_ref) same;
          ciphertext = ap (λ (x : ActorAudit). x.actor_ref_ciphertext) same;
          key_id = ap (λ (x : ActorAudit). x.actor_ref_key_id) same;
        })
      ]
    ];
  }

  All-before :
      (r : Assignment) (rows : List Assignment) (audits after : List ActorAudit)
      → All (Audited secret (insert_audit (actor_row r) audits) after) rows
      → All (Audited secret audits after) rows
  All-before r [] audits after h = tt
  All-before r (a ∷ rows) audits after (h, hs) =
      (Audited-before r a audits after h, All-before r rows audits after hs)

  audit_each-Audited :
      (rows : List Assignment) (audits : List ActorAudit)
      → All (Audited secret audits (audit_each secret rows audits)) rows
  unfolding audit_each
  audit_each-Audited [] audits = tt
  audit_each-Audited (a ∷ rows) audits =
      let middle = insert_audit (actor_row a) audits in
      (
        (elim (Option-cases (has_audit a.id audits)) [
          | inl e ↦ record {
            audit = actor_row a;
            there =
                audit_each-kept a.id (actor_row a) rows middle
                  (insert_audit-own (actor_row a) audits e);
            by_actor = inr (record { sentinel = refl; ciphertext = refl; key_id = refl });
          }
          | inr (x, e) ↦ record {
            audit = x;
            there =
                audit_each-kept a.id x rows middle
                  (insert_audit-kept a.id (actor_row a) x audits e);
            by_actor = inl e;
          }
        ]),
        All-before a rows audits (audit_each secret rows middle) (audit_each-Audited rows middle),
      )

-- Each of some assignments has the row of the creator, encrypted, or the one that it had.
abbrev pub AllAudited :
    Services → Option Text → List Assignment → List ActorAudit → List ActorAudit → Type 0
AllAudited svc creator [] before after = after ≡ before
AllAudited svc creator (a ∷ rows) before after =
    (secret : Text × Text) × (svc.encrypt (creator_or_system creator) ≡ some secret)
    × All (Audited secret before after) (a ∷ rows)

-- The actors of the assignments are written, and no other table is changed.
pub audit_assignments-AllAudited :
    (svc : Services) (creator : Option Text) (rows : List Assignment) (db : Db) (done : Unit {0})
    (after : Db)
    → audit_assignments svc creator rows db ≡ ok done after
    → AllAudited svc creator rows db.assignment_audits after.assignment_audits
      × (after ≡ record db { assignment_audits = after.assignment_audits })
unfolding audit_assignments
audit_assignments-AllAudited svc creator [] db done after h = (cc, cc)
audit_assignments-AllAudited svc creator (a ∷ rows) db done after h =
    elim (Option-cases (svc.encrypt (creator_or_system creator))) [
      | inl e ↦ absurd (ground arith)
      | inr (secret, e) ↦
          let same : after ≡ record db {
            assignment_audits = audit_each secret (a ∷ rows) db.assignment_audits;
          } =
            (let opened : audit_assignments svc creator (a ∷ rows) db
                  ≡ ok tt (record db {
                    assignment_audits = audit_each secret (a ∷ rows) db.assignment_audits;
                  }) =
                unfold audit_assignments in rw (e, audit_assignments) refl in
              cc) in
          (
            (
              secret,
              e,
              subst
                  (λ (d : Db).
                    All (Audited secret db.assignment_audits d.assignment_audits) (a ∷ rows))
                  (sym same) (audit_each-Audited secret (a ∷ rows) db.assignment_audits),
            ),
            same
                ∙ ap (λ (l : List ActorAudit). record db { assignment_audits = l })
                    (sym (ap (λ (d : Db). d.assignment_audits) same)),
          )
    ]
