-- ===== src/Corridor/Runs/Extent.antt =====
-- The axis and direction of a run do not depend on the order of its stops.
use fieldpro_pilot.Base.{◌≡◌, refl, ap, ◌∙◌, Option, List, Text}
use fieldpro_pilot.Base.Int.{
  ℤ, min_ℤ, max_ℤ, min_ℤ_right_comm, max_ℤ_right_comm, min_ℤ_self, max_ℤ_self, min_ℤ_comm,
  max_ℤ_comm,
}
use mathlib.Core.List.{Perm, Permᴰ}
use mathlib.Core.Logic.{∥∥₁_elim}
use fieldpro_pilot.Corridor.{
  Stop, Extent, RunMeta, point, widen, extent, meta_of, get_bearing_components, resolve_run_meta,
}

RunMeta-set : IsSet (Option RunMeta)
RunMeta-set = hlevel

widen_comm : (x : Extent) (p q : Stop) → widen (widen x p) q ≡ widen (widen x q) p
unfolding widen
widen_comm x p q = λ i. record {
  min_lon = min_ℤ_right_comm x.min_lon p.lon q.lon i;
  max_lon = max_ℤ_right_comm x.max_lon p.lon q.lon i;
  min_lat = min_ℤ_right_comm x.min_lat p.lat q.lat i;
  max_lat = max_ℤ_right_comm x.max_lat p.lat q.lat i;
}

min_start : (a b : ℤ) → min_ℤ (min_ℤ a a) b ≡ min_ℤ (min_ℤ b b) a
min_start a b = rw (min_ℤ_self a, min_ℤ_self b, min_ℤ_comm a b)

max_start : (a b : ℤ) → max_ℤ (max_ℤ a a) b ≡ max_ℤ (max_ℤ b b) a
max_start a b = rw (max_ℤ_self a, max_ℤ_self b, max_ℤ_comm a b)

widen-point : (p q : Stop) → widen (widen (point p) p) q ≡ widen (widen (point q) q) p
unfolding widen
widen-point p q = λ i. record {
  min_lon = min_start p.lon q.lon i;
  max_lon = max_start p.lon q.lon i;
  min_lat = min_start p.lat q.lat i;
  max_lat = max_start p.lat q.lat i;
}

extent-Permᴰ : {ps qs : List Stop} → Permᴰ ps qs → (x : Extent) → extent x ps ≡ extent x qs
unfolding extent
extent-Permᴰ Permᴰ.nil x = refl
extent-Permᴰ (Permᴰ.cons {b = b} e p) x = rw e (extent-Permᴰ p (widen x b))
extent-Permᴰ (Permᴰ.swap {l = l} e f) x = rw (e, f) (ap (λ y. extent y l) (widen_comm x _ _))
extent-Permᴰ (Permᴰ.trans p q) x = extent-Permᴰ p x ∙ extent-Permᴰ q x

meta-Permᴰ :
    (b : Text) {ps qs : List Stop} → Permᴰ ps qs → resolve_run_meta ps b ≡ resolve_run_meta qs b
unfolding resolve_run_meta extent
meta-Permᴰ b Permᴰ.nil = refl
meta-Permᴰ b (Permᴰ.cons e p) =
    rw e (ap (λ x. meta_of x (get_bearing_components b)) (extent-Permᴰ p _))
meta-Permᴰ b (Permᴰ.swap {l = l} e f) =
    rw (e, f) (ap (λ y. meta_of (extent y l) (get_bearing_components b)) (widen-point _ _))
meta-Permᴰ b (Permᴰ.trans p q) = meta-Permᴰ b p ∙ meta-Permᴰ b q

pub resolve_run_meta-perm :
    (b : Text) {ps qs : List Stop} → Perm ps qs → resolve_run_meta ps b ≡ resolve_run_meta qs b
resolve_run_meta-perm b p = ∥∥₁_elim p (RunMeta-set _ _) (meta-Permᴰ b)
