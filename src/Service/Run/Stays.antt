-- ===== src/Service/Run/Stays.antt =====
-- What stays of a run through the changes of its status and its times.
use fieldpro_pilot.Base.{ℕ, ◌≡◌, refl, ◌∙◌, Bool, true, false, ◌||◌, not, Option, none, some, arith}
use fieldpro_pilot.Service.{RouteRun, RunStatus, run_planned, run_finished, coalesce}
use fieldpro_pilot.Service.Run.Routes.{run_started, run_finished_now}

abbrev pub is_planned : RunStatus → Bool
is_planned run_planned = true
is_planned _ = false

-- what stays of a run
pub record Kept (r r' : RouteRun) : Type 0 where
  pub same_id : r'.id ≡ r.id
  pub same_org : r'.org_id ≡ r.org_id
  pub same_pool : r'.route_pool_id ≡ r.route_pool_id
  pub same_base : r'.base_id ≡ r.base_id
  pub same_date : r'.run_date ≡ r.run_date
  pub same_distance : r'.total_distance_m ≡ r.total_distance_m
  pub same_duration : r'.total_duration_s ≡ r.total_duration_s
  pub started_once : coalesce r.started_at r'.started_at ≡ r'.started_at
  pub finish_stays : coalesce r'.finished_at r.finished_at ≡ r'.finished_at
  pub never_replanned : (is_planned r.status || not (is_planned r'.status)) ≡ true

pub Kept-refl : (r : RouteRun) → Kept r r
Kept-refl r = record {
  same_id = refl;
  same_org = refl;
  same_pool = refl;
  same_base = refl;
  same_date = refl;
  same_distance = refl;
  same_duration = refl;
  started_once = ground arith;
  finish_stays = ground arith;
  never_replanned = ground arith;
}

first_trans : (a b c : Option ℕ) → coalesce a b ≡ b → coalesce b c ≡ c → coalesce a c ≡ c
first_trans none b c p q = refl
first_trans (some x) b c p q = ground arith

last_trans : (a b c : Option ℕ) → coalesce b a ≡ b → coalesce c b ≡ c → coalesce c a ≡ c
last_trans a b none p q = ground arith
last_trans a b (some x) p q = refl

planned_trans :
    (a b c : RunStatus)
    → (is_planned a || not (is_planned b)) ≡ true
    → (is_planned b || not (is_planned c)) ≡ true
    → (is_planned a || not (is_planned c)) ≡ true
planned_trans a b c p q = ground arith

pub Kept-trans : {a b c : RouteRun} → Kept a b → Kept b c → Kept a c
Kept-trans {a} {b} {c} p q = record {
  same_id = q.same_id ∙ p.same_id;
  same_org = q.same_org ∙ p.same_org;
  same_pool = q.same_pool ∙ p.same_pool;
  same_base = q.same_base ∙ p.same_base;
  same_date = q.same_date ∙ p.same_date;
  same_distance = q.same_distance ∙ p.same_distance;
  same_duration = q.same_duration ∙ p.same_duration;
  started_once = first_trans a.started_at b.started_at c.started_at p.started_once q.started_once;
  finish_stays = last_trans a.finished_at b.finished_at c.finished_at p.finish_stays q.finish_stays;
  never_replanned = planned_trans a.status b.status c.status p.never_replanned q.never_replanned;
}

-- a change of the status and the times
Kept-changed :
    (r : RouteRun) (status : RunStatus) (started finished updated : Option ℕ)
    → coalesce r.started_at started ≡ started
    → coalesce finished r.finished_at ≡ finished
    → (is_planned r.status || not (is_planned status)) ≡ true
    → Kept r (record r {
      status = status;
      started_at = started;
      finished_at = finished;
      updated_at = updated;
    })
Kept-changed r status started finished updated s f n = record {
  same_id = refl;
  same_org = refl;
  same_pool = refl;
  same_base = refl;
  same_date = refl;
  same_distance = refl;
  same_duration = refl;
  started_once = s;
  finish_stays = f;
  never_replanned = n;
}

coalesce_self : (a : Option ℕ) → coalesce a a ≡ a
coalesce_self none = refl
coalesce_self (some x) = refl

coalesce_first : (a b : Option ℕ) → coalesce a (coalesce a b) ≡ coalesce a b
coalesce_first none b = refl
coalesce_first (some x) b = refl

coalesce_last : (a b : Option ℕ) → coalesce (coalesce a b) a ≡ coalesce a b
coalesce_last none none = refl
coalesce_last none (some x) = refl
coalesce_last (some x) b = refl

pub run_started-Kept : (now : ℕ) (r : RouteRun) → Kept r (run_started now r)
run_started-Kept now r =
    Kept-changed r _ _ _ _ (coalesce_first r.started_at (some now)) (coalesce_self r.finished_at)
      (ground arith)

pub run_finished_now-Kept : (now : ℕ) (r : RouteRun) → Kept r (run_finished_now now r)
run_finished_now-Kept now r =
    Kept-changed r _ _ _ _ (coalesce_self r.started_at) refl (ground arith)

pub touched-Kept : (now : ℕ) (r : RouteRun) → Kept r (record r { updated_at = some now })
touched-Kept now r =
    Kept-changed r r.status _ _ _ (coalesce_self r.started_at) (coalesce_self r.finished_at)
      (ground arith)

pub checked-Kept :
    (now : ℕ) (r : RouteRun)
    → Kept r (record r {
      status = run_finished;
      finished_at = coalesce r.finished_at (some now);
      updated_at = some now;
    })
checked-Kept now r =
    Kept-changed r _ _ _ _ (coalesce_self r.started_at) (coalesce_last r.finished_at (some now))
      (ground arith)
