-- ===== src/Queue/Replay/Order.antt =====
-- Actions sorted by the comparator of the replay stand in stages, one for each rank.
use fieldpro_pilot.Base.{
  ℕ, ◌<◌, ◌≡◌, refl, ap, sym, subst, ◌∙◌, Bool, true, false, List, [], ◌∷◌, ◌++◌, arith, All, leb,
  ◌⊎◌, inl, inr,
}
use fieldpro_pilot.Base.Sort.{IsSorted}
use fieldpro_pilot.Queue.{
  Action, ActionType, start_stop, upload_stop_photos, skip_stop_with_hazard, complete_stop, other,
}
use fieldpro_pilot.Queue.Replay.{action_order, replay_before}

pub replay_before-total : (a b : Action) → replay_before a b ≡ false → replay_before b a ≡ true
unfolding replay_before
replay_before-total a b h = ground arith

pub replay_before_trans :
    (a b c : Action)
    → replay_before a b ≡ true
    → replay_before b c ≡ true
    → replay_before a c ≡ true
unfolding replay_before
replay_before_trans a b c h k = ground arith

abbrev pub rank : Action → ℕ
rank a = action_order a.type

abbrev pub older : Action → Action → Bool
older a b = leb a.created_at b.created_at

-- Stages of a list, one for each rank: within one the older action is first.
abbrev pub Staged : List ℕ → List Action → Type 0
Staged [] xs = xs ≡ []
Staged (n ∷ ranks) xs =
    (l : List Action) × (rest : List Action) × (xs ≡ l ++ rest)
    × All (λ a. rank a ≡ n) l
    × IsSorted older l
    × Staged ranks rest

abbrev Ascending : List ℕ → Type 0
Ascending [] = Unit {0}
Ascending (n ∷ ranks) = All (λ m. n < m) ranks × Ascending ranks

-- the rank is one of those given
abbrev OneOf : ℕ → List ℕ → Type 0
OneOf n [] = ⊥
OneOf n (m ∷ ranks) = (n ≡ m) ⊎ OneOf n ranks

larger : (n m : ℕ) (ranks : List ℕ) → All (λ k. n < k) ranks → OneOf m ranks → n < m
larger n m [] h o = absurd o
larger n m (k ∷ ranks) (h, hs) (inl e) = omega (arith, h, e)
larger n m (k ∷ ranks) (h, hs) (inr o) = larger n m ranks hs o

-- Of a list that may all follow an action, no part has a lower rank.
nothing_lower :
    (x : Action) (n : ℕ) (l rest : List Action)
    → All (λ y. replay_before x y ≡ true) (l ++ rest)
    → All (λ a. rank a ≡ n) l
    → n < rank x
    → l ≡ []
unfolding replay_before
nothing_lower x n [] rest h r less = refl
nothing_lower x n (y ∷ l) rest (h, hs) (r, rs) less = absurd (ground arith)

older_than :
    (x : Action) (n : ℕ) (l rest : List Action)
    → All (λ y. replay_before x y ≡ true) (l ++ rest)
    → All (λ a. rank a ≡ n) l
    → rank x ≡ n
    → All (λ y. older x y ≡ true) l
unfolding replay_before
older_than x n [] rest h r e = tt
older_than x n (y ∷ l) rest (h, hs) (r, rs) e = (ground arith, older_than x n l rest hs rs e)

Staged-cons :
    (ranks : List ℕ) (x : Action) (xs : List Action)
    → Ascending ranks
    → OneOf (rank x) ranks
    → All (λ y. replay_before x y ≡ true) xs
    → Staged ranks xs
    → Staged ranks (x ∷ xs)
Staged-cons [] x xs asc o h staged = absurd o
Staged-cons (n ∷ ranks) x xs asc (inl e) h (l, rest, same, r, sorted, staged) = (
  x ∷ l,
  rest,
  ap (◌∷◌ x) same,
  (e, r),
  (older_than x n l rest (subst (All (λ y. replay_before x y ≡ true)) same h) r e, sorted),
  staged,
)
Staged-cons (n ∷ ranks) x xs (up, asc) (inr o) h (l, rest, same, r, sorted, staged) =
    let after = subst (All (λ y. replay_before x y ≡ true)) same h in
    let empty = nothing_lower x n l rest after r (larger n (rank x) ranks up o) in
    let only : xs ≡ rest = same ∙ ap (λ k. k ++ rest) empty in
    (
      [],
      x ∷ xs,
      refl,
      tt,
      tt,
      Staged-cons ranks x xs asc o h (subst (Staged ranks) (sym only) staged),
    )

abbrev pub ranks : List ℕ
ranks = 1 ∷ 2 ∷ 3 ∷ 4 ∷ 99 ∷ []

ranks-Ascending : Ascending ranks
ranks-Ascending = (
  (omega arith, (omega arith, (omega arith, (omega arith, tt)))),
  (
    (omega arith, (omega arith, (omega arith, tt))),
    ((omega arith, (omega arith, tt)), ((omega arith, tt), (tt, tt))),
  ),
)

ranks-OneOf : (t : ActionType) → OneOf (action_order t) ranks
unfolding action_order
ranks-OneOf start_stop = inl refl
ranks-OneOf upload_stop_photos = inr (inl refl)
ranks-OneOf skip_stop_with_hazard = inr (inr (inl refl))
ranks-OneOf complete_stop = inr (inr (inr (inl refl)))
ranks-OneOf (other name) = inr (inr (inr (inr (inl refl))))

pub IsSorted-Staged : (xs : List Action) → IsSorted replay_before xs → Staged ranks xs
IsSorted-Staged [] h =
    let none_left : Staged [] [] = refl in
    let others : Staged (99 ∷ []) [] = ([], [], refl, tt, tt, none_left) in
    let completes : Staged (4 ∷ 99 ∷ []) [] = ([], [], refl, tt, tt, others) in
    let skips : Staged (3 ∷ 4 ∷ 99 ∷ []) [] = ([], [], refl, tt, tt, completes) in
    let uploads : Staged (2 ∷ 3 ∷ 4 ∷ 99 ∷ []) [] = ([], [], refl, tt, tt, skips) in
    ([], [], refl, tt, tt, uploads)
IsSorted-Staged (x ∷ xs) (h, hs) =
    Staged-cons ranks x xs ranks-Ascending (ranks-OneOf x.type) h (IsSorted-Staged xs hs)
