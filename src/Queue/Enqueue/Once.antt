-- ===== src/Queue/Enqueue/Once.antt =====
-- `enqueueAction` keeps at most one live start and one pending skip for each stop.
use fieldpro_pilot.Base.{
  ◌≤◌, ◌≡◌, refl, ap, inl, inr, true, false, ◌&&◌, List, [], ◌∷◌, arith, any, count, Bool-cases,
  Option-cases, Text, eq_text, eq_text_iff, count-append, count_of_none, count-update_first,
}
use fieldpro_pilot.Queue.{Action, is_pending, is_live, is_upload, is_start, is_skip, to_string}
use fieldpro_pilot.Queue.Enqueue.{
  same_upload, merge_photos, push, enqueue_upload, same_start, same_skip, upload_parts,
  enqueue_into,
}

-- `b` stands for any stop: at most one action of the queue starts it, and is not yet over.
abbrev pub StartsOnce : List Action → Type 0
StartsOnce actions = (b : Action) → count (same_start b) actions ≤ 1

abbrev pub SkipsOnce : List Action → Type 0
SkipsOnce actions = (b : Action) → count (same_skip b) actions ≤ 1

-- What the two predicates see of an action.
same_start-merge :
    (ids : List Text) (b a : Action) → same_start b (merge_photos ids a) ≡ same_start b a
unfolding same_start merge_photos
same_start-merge ids b a = refl

same_skip-merge :
    (ids : List Text) (b a : Action) → same_skip b (merge_photos ids a) ≡ same_skip b a
unfolding same_skip merge_photos
same_skip-merge ids b a = refl

-- An action that is no live start adds none.
push-starts :
    (action b : Action) (actions : List Action)
    → (is_start action.type && is_live action.status) ≡ false
    → count (same_start b) (push action actions) ≡ count (same_start b) actions
unfolding same_start
push-starts action b actions h = ground (arith, count-append (same_start b) actions (action ∷ []))

push-skips :
    (action b : Action) (actions : List Action)
    → (is_skip action.type && is_pending action.status) ≡ false
    → count (same_skip b) (push action actions) ≡ count (same_skip b) actions
unfolding same_skip
push-skips action b actions h = ground (arith, count-append (same_skip b) actions (action ∷ []))

upload-starts :
    (action b : Action) (kind : Text) (ids : List Text) (actions : List Action)
    → (is_start action.type && is_live action.status) ≡ false
    → count (same_start b) (enqueue_upload action kind ids actions) ≡ count (same_start b) actions
unfolding enqueue_upload
upload-starts action b kind ids actions h =
    elim (Bool-cases (any (same_upload action kind) actions)) [
      | inl e ↦ rw e (
          count-update_first (same_start b) (same_upload action kind) (merge_photos ids) actions
            (λ x _. same_start-merge ids b x))
      | inr e ↦ rw e (push-starts action b actions h)
    ]

upload-skips :
    (action b : Action) (kind : Text) (ids : List Text) (actions : List Action)
    → (is_skip action.type && is_pending action.status) ≡ false
    → count (same_skip b) (enqueue_upload action kind ids actions) ≡ count (same_skip b) actions
unfolding enqueue_upload
upload-skips action b kind ids actions h =
    elim (Bool-cases (any (same_upload action kind) actions)) [
      | inl e ↦ rw e (
          count-update_first (same_skip b) (same_upload action kind) (merge_photos ids) actions
            (λ x _. same_skip-merge ids b x))
      | inr e ↦ rw e (push-skips action b actions h)
    ]

starts_at :
    (b c : Action) (actions : List Action)
    → to_string b.route_run_stop_id ≡ to_string c.route_run_stop_id
    → count (same_start b) actions ≡ count (same_start c) actions
unfolding same_start
starts_at b c actions e =
    ap
      (λ (t : Text).
        count
          (λ a. is_start a.type && is_live a.status && eq_text (to_string a.route_run_stop_id) t)
          actions)
      e

skips_at :
    (b c : Action) (actions : List Action)
    → to_string b.route_run_stop_id ≡ to_string c.route_run_stop_id
    → count (same_skip b) actions ≡ count (same_skip c) actions
unfolding same_skip
skips_at b c actions e =
    ap
      (λ (t : Text).
        count
          (λ a. is_skip a.type && is_pending a.status && eq_text (to_string a.route_run_stop_id) t)
          actions)
      e

same_start-stop :
    (b a : Action)
    → same_start b a ≡ true
    → to_string b.route_run_stop_id ≡ to_string a.route_run_stop_id
unfolding same_start
same_start-stop b a h =
    ground (arith, eq_text_iff (to_string a.route_run_stop_id) (to_string b.route_run_stop_id))

same_skip-stop :
    (b a : Action)
    → same_skip b a ≡ true
    → to_string b.route_run_stop_id ≡ to_string a.route_run_stop_id
unfolding same_skip
same_skip-stop b a h =
    ground (arith, eq_text_iff (to_string a.route_run_stop_id) (to_string b.route_run_stop_id))

-- A new start is pushed where no live one stands for its stop.
push-start-once :
    (action b : Action) (actions : List Action)
    → any (same_start action) actions ≡ false
    → count (same_start b) actions ≤ 1
    → count (same_start b) (push action actions) ≤ 1
push-start-once action b actions h k = elim (Bool-cases (same_start b action)) [
  | inl e ↦
      rw
        (
          count-append (same_start b) actions (action ∷ []),
          e,
          starts_at b action actions (same_start-stop b action e),
          count_of_none (same_start action) actions h,
        )
        (omega arith)
  | inr e ↦ rw (count-append (same_start b) actions (action ∷ []), e) (omega arith)
]

push-skip-once :
    (action b : Action) (actions : List Action)
    → any (same_skip action) actions ≡ false
    → count (same_skip b) actions ≤ 1
    → count (same_skip b) (push action actions) ≤ 1
push-skip-once action b actions h k = elim (Bool-cases (same_skip b action)) [
  | inl e ↦
      rw
        (
          count-append (same_skip b) actions (action ∷ []),
          e,
          skips_at b action actions (same_skip-stop b action e),
          count_of_none (same_skip action) actions h,
        )
        (omega arith)
  | inr e ↦ rw (count-append (same_skip b) actions (action ∷ []), e) (omega arith)
]

-- A skip that replaces another is seen as the other was.
replace_sees :
    (action b x : Action)
    → (is_skip action.type && is_pending action.status) ≡ true
    → same_skip action x ≡ true
    → (same_start b action ≡ same_start b x) × (same_skip b action ≡ same_skip b x)
unfolding same_start same_skip
replace_sees action b x h e =
    let stop : to_string action.route_run_stop_id ≡ to_string x.route_run_stop_id =
      same_skip-stop action x e in
    (ground arith, ground (arith, stop))

-- Whatever is enqueued, a queue with at most one live start for each stop keeps at most one, and a
-- queue with at most one pending skip for each stop keeps at most one.
pub enqueue_into-Once :
    (action : Action) (actions : List Action)
    → StartsOnce actions
    → SkipsOnce actions
    → StartsOnce (enqueue_into action actions) × SkipsOnce (enqueue_into action actions)
unfolding enqueue_into
enqueue_into-Once action actions starts skips =
    elim (Bool-cases (is_upload action.type && is_pending action.status)) [
      | inl u ↦ elim (Option-cases (upload_parts action.payload)) [
        | inl e ↦
            rw (u, e)
              (
                (λ b. rw (push-starts action b actions (ground arith)) (starts b)),
                (λ b. rw (push-skips action b actions (ground arith)) (skips b)),
              )
        | inr (p, e) ↦
            rw (u, e)
              (
                (λ b. rw (upload-starts action b p.0 p.1 actions (ground arith)) (starts b)),
                (λ b. rw (upload-skips action b p.0 p.1 actions (ground arith)) (skips b)),
              )
      ]
      | inr nu ↦ elim (Bool-cases (is_start action.type && is_live action.status)) [
        | inl st ↦ elim (Bool-cases (any (same_start action) actions)) [
          | inl e ↦ rw (nu, st, e) (starts, skips)
          | inr e ↦
              rw (nu, st, e)
                (
                  (λ b. push-start-once action b actions e (starts b)),
                  (λ b. rw (push-skips action b actions (ground arith)) (skips b)),
                )
        ]
        | inr ns ↦ elim (Bool-cases (is_skip action.type && is_pending action.status)) [
          | inl sk ↦ elim (Bool-cases (any (same_skip action) actions)) [
            | inl e ↦
                rw (nu, ns, sk, e)
                  (
                    (λ b.
                        rw
                          (count-update_first (same_start b) (same_skip action) (λ _. action)
                            actions (λ x f. (replace_sees action b x sk f).0))
                          (starts b)),
                    (λ b.
                        rw
                          (count-update_first (same_skip b) (same_skip action) (λ _. action) actions
                            (λ x f. (replace_sees action b x sk f).1))
                          (skips b)),
                  )
            | inr e ↦
                rw (nu, ns, sk, e)
                  (
                    (λ b. rw (push-starts action b actions ns) (starts b)),
                    (λ b. push-skip-once action b actions e (skips b)),
                  )
          ]
          | inr nk ↦
              rw (nu, ns, nk)
                (
                  (λ b. rw (push-starts action b actions ns) (starts b)),
                  (λ b. rw (push-skips action b actions nk) (skips b)),
                )
        ]
      ]
    ]
