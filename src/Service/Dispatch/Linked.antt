-- ===== src/Service/Dispatch/Linked.antt =====
-- The check of the linkage: what the `INSERT` of the assignments leaves.
use fieldpro_pilot.Base.{
  ℕ, suc, ◌+◌, ◌≤◌, ◌≡◌, refl, ap, ◌∙◌, sym, true, false, none, some, List, [], ◌∷◌, ◌++◌, arith,
  length, length-append, append_assoc, append-nil, Bool-cases, Option-cases, text, inl, inr,
}
use fieldpro_pilot.Service.{Db, Result, ok, error, Assignment, RouteRunStop}
use fieldpro_pilot.Service.Dispatch.{
  Link, concat_map, conflicts, new_assignment, insert_link, insert_links,
}

-- An assignment is written for a link: of the run, at its place, for its asset.
pub record Assigns (run : ℕ) (link : Link) (a : Assignment) : Type 0 where
  pub of_run : a.route_run_id ≡ run
  pub of_org : some a.org_id ≡ link.org_id
  pub at_place : a.location_id ≡ link.location_id
  pub for_asset : a.asset_id ≡ link.asset_id

-- The assignments are those of the links, one for each and in their order.
abbrev pub Assigned : ℕ → List Link → List Assignment → Type 0
Assigned run [] [] = Unit {0}
Assigned run [] (a ∷ rows) = ⊥
Assigned run (link ∷ links) [] = ⊥
Assigned run (link ∷ links) (a ∷ rows) = Assigns run link a × Assigned run links rows

-- what the inserts leave: some rows, behind the table's and behind those before, fewer than the links
-- or one for each
abbrev pub Inserted : ℕ → List Link → List Assignment → Db → Result (List Assignment) → Type 0
Inserted run links before db (error e) = Unit {0}
Inserted run links before db (ok inserted after) =
    (new : List Assignment) × (serial : ℕ) × (inserted ≡ before ++ new)
    × (after ≡ record db { assignments = db.assignments ++ new; serial = serial })
    × (length new ≤ length links)
    × (length new ≡ length links → Assigned run links new)

-- a link that was left out
Inserted-skip :
    (run : ℕ) (link : Link) (links : List Link) (before : List Assignment) (db : Db)
    (r : Result (List Assignment))
    → Inserted run links before db r
    → Inserted run (link ∷ links) before db r
Inserted-skip run link links before db (error e) h = tt
Inserted-skip run link links before db (ok inserted after) (new, n, i, t, l, a) =
    (new, n, i, t, omega arith, λ e. absurd (omega arith))

-- a link that was written
Inserted-write :
    (run : ℕ) (link : Link) (links : List Link) (row : Assignment) (before : List Assignment)
    (db : Db) (n : ℕ) (r : Result (List Assignment))
    → Assigns run link row
    → Inserted run links
        (before ++ row ∷ [])
        (record db { assignments = db.assignments ++ row ∷ []; serial = n })
        r
    → Inserted run (link ∷ links) before db r
Inserted-write run link links row before db n (error e) w h = tt
Inserted-write run link links row before db n (ok inserted after) w (new, k, i, t, l, a) = (
  row ∷ new,
  k,
  i ∙ append_assoc before (row ∷ []) new,
  t
      ∙ ap (λ (rows : List Assignment). record db { assignments = rows; serial = k })
          (append_assoc db.assignments (row ∷ []) new),
  omega arith,
  λ e. (w, a (omega arith)),
)

new_assignment-Assigns :
    (run date org : ℕ) (link : Link) (id : ℕ)
    → link.org_id ≡ some org
    → Assigns run link (new_assignment run date org link id)
unfolding new_assignment
new_assignment-Assigns run date org link id e = record {
  of_run = refl;
  of_org = sym e;
  at_place = refl;
  for_asset = refl;
}

module _ (run date : ℕ) (link : Link) (before : List Assignment) (db : Db) where
  insert_link-refused :
      link.org_id ≡ none
      → insert_link run date link before db ≡ error (text "null value in column org_id")
  insert_link-refused h = unfold insert_link in rw (h, insert_link) refl

  insert_link-conflict :
      (org : ℕ)
      → link.org_id ≡ some org
      → conflicts run link.location_id db.assignments ≡ true
      → insert_link run date link before db ≡ ok before db
  insert_link-conflict org h c = unfold insert_link in rw (h, c, insert_link) refl

  insert_link-written :
      (org : ℕ)
      → link.org_id ≡ some org
      → conflicts run link.location_id db.assignments ≡ false
      → insert_link run date link before db
        ≡ ok (before ++ new_assignment run date org link db.serial ∷ []) (record db {
          assignments = db.assignments ++ new_assignment run date org link db.serial ∷ [];
          serial = suc db.serial;
        })
  insert_link-written org h c = unfold insert_link in rw (h, c, insert_link) refl

pub insert_links-Inserted :
    (run date : ℕ) (links : List Link) (before : List Assignment) (db : Db)
    → Inserted run links before db (insert_links run date links before db)
unfolding insert_links
insert_links-Inserted run date [] before db = (
  [],
  db.serial,
  sym (append-nil before),
  ap (λ (rows : List Assignment). record db { assignments = rows })
      (sym (append-nil db.assignments)),
  omega arith,
  λ e. tt,
)
insert_links-Inserted run date (link ∷ links) before db = elim (Option-cases link.org_id) [
  | inl e ↦ rw (insert_link-refused run date link before db e) tt
  | inr (org, e) ↦ elim (Bool-cases (conflicts run link.location_id db.assignments)) [
    | inl c ↦ rw (insert_link-conflict run date link before db org e c) (
        Inserted-skip run link links before db (insert_links run date links before db)
          (insert_links-Inserted run date links before db))
    | inr c ↦
        let row = new_assignment run date org link db.serial in
        let after = record db {
          assignments = db.assignments ++ row ∷ [];
          serial = suc db.serial;
        } in
        rw (insert_link-written run date link before db org e c) (
          Inserted-write run link links row before db (suc db.serial)
            (insert_links run date links (before ++ row ∷ []) after)
            (new_assignment-Assigns run date org link db.serial e)
            (insert_links-Inserted run date links (before ++ row ∷ []) after))
  ]
]

-- each stop is joined to one link, and its assignment stands in the stop's place
abbrev pub Each : ℕ → (RouteRunStop → List Link) → List RouteRunStop → List Assignment → Type 0
Each run links [] [] = Unit {0}
Each run links [] (a ∷ rows) = ⊥
Each run links (s ∷ stops) [] = ⊥
Each run links (s ∷ stops) (a ∷ rows) =
    ((link : Link) × (links s ≡ link ∷ []) × Assigns run link a) × Each run links stops rows

module _ (run : ℕ) (links : RouteRunStop → List Link)
    (few : (s : RouteRunStop) → length (links s) ≤ 1) where
  length-concat_map : (stops : List RouteRunStop) → length (concat_map links stops) ≤ length stops
  unfolding concat_map
  length-concat_map [] = omega arith
  length-concat_map (s ∷ stops) =
      omega
        (arith, few s, length-concat_map stops, length-append (links s) (concat_map links stops))

  Each-first :
      (s : RouteRunStop) (stops : List RouteRunStop) (l : List Link) (rows : List Assignment)
      → links s ≡ l
      → length l + length (concat_map links stops) ≡ suc (length stops)
      → Assigned run (l ++ concat_map links stops) rows
      → ((rest : List Assignment)
          → length (concat_map links stops) ≡ length stops
          → Assigned run (concat_map links stops) rest
          → Each run links stops rest)
      → Each run links (s ∷ stops) rows
  Each-first s stops [] rows e n a rec = absurd (omega (arith, length-concat_map stops))
  Each-first s stops (link ∷ []) [] e n a rec = elim a [ ]
  Each-first s stops (link ∷ []) (row ∷ rows) e n (w, a) rec =
      ((link, e, w), rec rows (omega arith) a)
  Each-first s stops (link ∷ other ∷ more) rows e n a rec =
      absurd (omega (arith, few s, ap length e))

  Each-Assigned :
      (stops : List RouteRunStop) (rows : List Assignment)
      → length (concat_map links stops) ≡ length stops
      → Assigned run (concat_map links stops) rows
      → Each run links stops rows
  unfolding concat_map
  Each-Assigned [] [] n a = tt
  Each-Assigned [] (row ∷ rows) n a = a
  Each-Assigned (s ∷ stops) rows n a =
      Each-first s stops (links s) rows refl
        (omega (arith, length-append (links s) (concat_map links stops))) a (Each-Assigned stops)

  -- As many rows as stops, where no stop has two links: every stop has one.
  pub Each-counted :
      (stops : List RouteRunStop) (rows : List Assignment)
      → length rows ≡ length stops
      → length rows ≤ length (concat_map links stops)
      → (length rows ≡ length (concat_map links stops) → Assigned run (concat_map links stops) rows)
      → Each run links stops rows
  Each-counted stops rows n l a =
      let e : length (concat_map links stops) ≡ length stops =
        omega (arith, length-concat_map stops) in
      Each-Assigned stops rows e (a (omega arith))
