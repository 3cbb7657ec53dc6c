-- ===== src/Service/Dispatch/Keys.antt =====
-- The keys of the tables that an assignment is joined from: with them, a stop is joined to one row at
-- most.
use fieldpro_pilot.Base.{
  ℕ, suc, ◌≤◌, ◌≡◌, refl, ap, Bool, true, false, not, ◌&&◌, Option, none, some, List, [], ◌∷◌,
  arith, map, any, filter, length, length-append, Bool-cases, ◌==◌, Text, eq_text, eq_text_iff, inl,
  inr,
}
use fieldpro_pilot.Service.{Db, Asset, Location, PublicStop, RouteRunStop}
use fieldpro_pilot.Service.Dispatch.{concat_map, has_asset_id, locations_of, links_of}

-- no two elements are the same by the test
abbrev pub distinct_by {ℓ} : {A : Type ℓ} → (A → A → Bool) → List A → Bool
distinct_by same [] = true
distinct_by same (x ∷ xs) = not (any (same x) xs) && distinct_by same xs

-- the primary keys of stops and assets, and one location for each stop
pub record IsKeyed (db : Db) : Type 0 where
  pub stops_keyed : distinct_by (λ a b. eq_text a.stop_id b.stop_id) db.public_stops ≡ true
  pub assets_keyed : distinct_by (λ a b. a.id == b.id) db.assets ≡ true
  pub locations_keyed : distinct_by (λ a b. eq_text a.stop_id b.stop_id) db.locations ≡ true

module _ {ℓ} {A : Type ℓ} (same : A → A → Bool) (p : A → Bool)
    (close : (x y : A) → p x ≡ true → p y ≡ true → same x y ≡ true) where
  filter-none : (x : A) (xs : List A) → p x ≡ true → any (same x) xs ≡ false → filter p xs ≡ []
  filter-none x [] e h = refl
  filter-none x (y ∷ xs) e h = elim (Bool-cases (p y)) [
    | inl f ↦ absurd (ground (arith, close x y e f))
    | inr f ↦ rw f (filter-none x xs e (ground arith))
  ]

  length-filter_distinct : (xs : List A) → distinct_by same xs ≡ true → length (filter p xs) ≤ 1
  length-filter_distinct [] h = omega arith
  length-filter_distinct (x ∷ xs) h = elim (Bool-cases (p x)) [
    | inl e ↦ rw (e, filter-none x xs e (ground arith)) (omega arith)
    | inr e ↦ rw e (length-filter_distinct xs (ground arith))
  ]

length-concat_map_one {ℓ κ} :
    {A : Type ℓ} {B : Type κ} (f : A → List B) (xs : List A)
    → length xs ≤ 1
    → ((x : A) → length (f x) ≤ 1)
    → length (concat_map f xs) ≤ 1
unfolding concat_map
length-concat_map_one f [] n h = omega arith
length-concat_map_one f (x ∷ []) n h = omega (arith, h x, length-append (f x) [])
length-concat_map_one f (x ∷ y ∷ xs) n h = absurd (omega arith)

length-map {ℓ κ} :
    {A : Type ℓ} {B : Type κ} (f : A → B) (xs : List A) → length (map f xs) ≡ length xs
length-map f [] = refl
length-map f (x ∷ xs) = ap suc (length-map f xs)

eq_text_close : (a b s : Text) → eq_text a s ≡ true → eq_text b s ≡ true → eq_text a b ≡ true
eq_text_close a b s e f = ground (arith, eq_text_iff a s, eq_text_iff b s, eq_text_iff a b)

has_asset_id_close :
    (id : Option ℕ) (a b : Asset)
    → has_asset_id id a ≡ true
    → has_asset_id id b ≡ true
    → (a.id == b.id) ≡ true
has_asset_id_close none a b e f = absurd (cc)
has_asset_id_close (some id) a b e f = ground arith

length-locations_of :
    (stop : Text) (locations : List Location)
    → length (filter (λ l. eq_text l.stop_id stop) locations) ≤ 1
    → length (locations_of stop locations) ≤ 1
unfolding locations_of
length-locations_of stop locations h = go (filter (λ l. eq_text l.stop_id stop) locations) refl
  where
    go :
        (found : List Location)
        → filter (λ l. eq_text l.stop_id stop) locations ≡ found
        → length (locations_of stop locations) ≤ 1
    go [] e = rw (e, locations_of) (omega arith)
    go (l ∷ []) e = rw (e, locations_of) (omega arith)
    go (l ∷ k ∷ more) e = absurd (omega (arith, ap length e))

pub length-links_of : (db : Db) → IsKeyed db → (row : RouteRunStop) → length (links_of db row) ≤ 1
unfolding links_of
length-links_of db k row =
    length-concat_map_one _ _
      (length-filter_distinct (λ (a b : PublicStop). eq_text a.stop_id b.stop_id)
        (λ p. eq_text p.stop_id row.stop_id) (λ a b. eq_text_close a.stop_id b.stop_id row.stop_id)
        db.public_stops k.stops_keyed)
      (λ p.
        length-concat_map_one _ _
          (length-filter_distinct (λ (a b : Asset). a.id == b.id) (has_asset_id row.asset_id)
            (has_asset_id_close row.asset_id) db.assets k.assets_keyed)
          (λ a. rw length-map (
            length-locations_of row.stop_id db.locations (
              length-filter_distinct (λ (a b : Location). eq_text a.stop_id b.stop_id)
                (λ l. eq_text l.stop_id row.stop_id)
                (λ a b. eq_text_close a.stop_id b.stop_id row.stop_id) db.locations
                k.locations_keyed))))
