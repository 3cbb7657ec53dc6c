-- ===== src/Inventory/Seed/Seeded.antt =====
-- What is in the table after an inventory was seeded.
use fieldpro_pilot.Base.{
  ℕ, ◌≡◌, refl, ap, sym, ◌∙◌, subst, Bool, true, false, ◌&&◌, not, Option, some, List, [], ◌∷◌,
  arith, any, filter, All, Bool-cases, Option-cases, ◌==◌, Text, eq_text, eq_text_iff, eq_text_refl,
  inl, inr,
}
use fieldpro_pilot.Csv.Assets.{AssetSeedRow}
use fieldpro_pilot.Inventory.{upsert}
use fieldpro_pilot.Inventory.Upsert.{filter-upsert, any-upsert}
use fieldpro_pilot.Inventory.Keyed.{or_else, at, latest, IsKeyed, at-later}
use fieldpro_pilot.Inventory.Seed.{
  AssetRow, same_asset, is_taken, asset_updated, new_asset, upsert_asset, upsert_assets,
}

module _ {N J : Type 0} (number : Text → Option N) (json : Text → Option J) where
  abbrev pub Seed : Type 0
  Seed = AssetSeedRow number json

  abbrev pub StoredAsset : Type 0
  StoredAsset = AssetRow number json

  abbrev pub id_of : Seed → Text
  id_of r = r.external_id

  abbrev pub seed_of : StoredAsset → Seed
  seed_of a = a.seed

  -- what the table has of an asset
  abbrev pub seed_at : ℕ → ℕ → Text → List StoredAsset → Option Seed
  seed_at org type_id = at (same_asset number json org type_id) id_of seed_of (λ r. r)

  -- the last of the rows with an external id
  abbrev pub last_seed : ℕ → ℕ → Text → List Seed → Option Seed
  last_seed org type_id = latest (same_asset number json org type_id) id_of seed_of (λ r. r)

  abbrev pub of_others : ℕ → ℕ → StoredAsset → Bool
  of_others org type_id a = not (a.org_id == org && a.asset_type_id == type_id)

  pub record IsSeeded (org type_id : ℕ) (rows : List Seed) (before after : List StoredAsset)
      : Type 0 where
    pub by_key :
        (key : Text)
        → seed_at org type_id key after
          ≡ or_else (last_seed org type_id key rows) (seed_at org type_id key before)
    pub others_kept : filter (of_others org type_id) after ≡ filter (of_others org type_id) before

  module _ (now org type_id : ℕ) where
    same_asset-new :
        (r : Seed)
        → same_asset number json org type_id r.external_id (new_asset number json now org type_id r)
          ≡ true
    same_asset-new r = ground (arith, eq_text_refl r.external_id)

    same_asset_apart :
        (key other : Text) (a : StoredAsset)
        → eq_text key other ≡ false
        → same_asset number json org type_id key a ≡ true
        → same_asset number json org type_id other a ≡ false
    same_asset_apart key other a h e =
        let key_is : a.seed_key ≡ key = ground (arith, eq_text_iff a.seed_key key) in
        let apart : eq_text a.seed_key other ≡ false = ap (λ k. eq_text k other) key_is ∙ h in
        ground arith

    seed-IsKeyed :
        IsKeyed
          (same_asset number json org type_id)
          id_of
          seed_of
          (λ r. r)
          (asset_updated number json now)
          (new_asset number json now org type_id)
    seed-IsKeyed = record {
      own = same_asset-new;
      stays = λ r a e. e;
      apart = same_asset_apart;
      seen_new = λ r. refl;
      seen_update = λ r a. refl;
    }

    -- the table after a round for `r`
    abbrev after_round : Seed → List StoredAsset → List StoredAsset
    after_round r assets =
        upsert (same_asset number json org type_id r.external_id) (asset_updated number json now r)
          (new_asset number json now org type_id r) assets

    others-round :
        (r : Seed) (assets : List StoredAsset)
        → filter (of_others org type_id) (after_round r assets)
          ≡ filter (of_others org type_id) assets
    others-round r assets =
        filter-upsert (same_asset number json org type_id r.external_id) (of_others org type_id)
          (asset_updated number json now r) (new_asset number json now org type_id r) assets
          (λ a e. ground arith) (λ a e. ground arith) (ground arith)

    upsert_asset-round :
        (r : Seed) (assets after : List StoredAsset)
        → upsert_asset number json now org type_id r assets ≡ some after
        → after ≡ after_round r assets
    unfolding upsert_asset
    upsert_asset-round r assets after h =
        elim (Bool-cases (any (is_taken number json org type_id r.external_id) assets)) [
          | inl e ↦ absurd (ground arith)
          | inr e ↦ ground arith
        ]

    pub upsert_assets-IsSeeded :
        (rows : List Seed) (assets after : List StoredAsset)
        → upsert_assets number json now org type_id rows assets ≡ some after
        → IsSeeded org type_id rows assets after
    unfolding upsert_assets
    upsert_assets-IsSeeded [] assets after h =
        let same : after ≡ assets = ground arith in
        record {
          by_key = λ key. ap (seed_at org type_id key) same;
          others_kept = ap (filter (of_others org type_id)) same;
        }
    upsert_assets-IsSeeded (r ∷ rows) assets after h =
        elim (Option-cases (upsert_asset number json now org type_id r assets)) [
          | inl e ↦ absurd (ground arith)
          | inr (middle, e) ↦
              let round = upsert_asset-round r assets middle e in
              let rest = upsert_assets-IsSeeded rows middle after (ground arith) in
              record {
                by_key = λ key.
                    rest.by_key key
                    ∙ ap (or_else (last_seed org type_id key rows))
                        (ap (seed_at org type_id key) round)
                    ∙ at-later (same_asset number json org type_id) id_of seed_of (λ x. x)
                        (asset_updated number json now) (new_asset number json now org type_id)
                        seed-IsKeyed r key (last_seed org type_id key rows) assets;
                others_kept =
                    rest.others_kept
                    ∙ ap (filter (of_others org type_id)) round
                    ∙ others-round r assets;
              }
        ]

    not_taken :
        (r : Seed) (key : Text) (a : StoredAsset)
        → a.seed.external_id ≡ r.external_id
        → same_asset number json org type_id r.external_id a ≡ true
        → is_taken number json org type_id key a ≡ false
    not_taken r key a own e = elim (Bool-cases (eq_text a.seed.external_id key)) [
      | inl f ↦
          let same_key : r.external_id ≡ key = sym own ∙ (eq_text_iff a.seed.external_id key).0 f in
          let same : same_asset number json org type_id key a ≡ true =
            subst (λ k. same_asset number json org type_id k a ≡ true) same_key e in
          ground arith
      | inr f ↦ ground arith
    ]

    -- Whether an external id is another asset's is not changed by a round that writes one that is not.
    free-round :
        (r : Seed) (key : Text) (assets : List StoredAsset)
        → any (is_taken number json org type_id key) assets ≡ false
        → any (is_taken number json org type_id key) (after_round r assets) ≡ false
    free-round r key assets h =
        any-upsert (same_asset number json org type_id r.external_id)
          (is_taken number json org type_id key) (asset_updated number json now r)
          (new_asset number json now org type_id r) assets
          (λ a e. not_taken r key (asset_updated number json now r a) refl e)
          (not_taken r key (new_asset number json now org type_id r) refl (same_asset-new r)) h

    free_kept :
        (r : Seed) (assets : List StoredAsset) (rows : List Seed)
        → All (λ x. any (is_taken number json org type_id x.external_id) assets ≡ false) rows
        → All
            (λ x.
              any (is_taken number json org type_id x.external_id) (after_round r assets) ≡ false)
            rows
    free_kept r assets [] nothing = tt
    free_kept r assets (x ∷ rows) (k, ks) =
        (free-round r x.external_id assets k, free_kept r assets rows ks)

    returned :
        (rows : List Seed) (assets : List StoredAsset)
        → All (λ r. any (is_taken number json org type_id r.external_id) assets ≡ false) rows
        → (after : List StoredAsset) × (upsert_assets number json now org type_id rows assets
            ≡ some after)
    unfolding upsert_assets upsert_asset
    returned [] assets free = (assets, refl)
    returned (r ∷ rows) assets (h, hs) =
        let (after, e) = returned rows (after_round r assets) (free_kept r assets rows hs) in
        (after, rw (h, upsert_assets) e)

    -- An inventory is written, where no external id of it is that of an asset of the organisation with
    -- another type or seed key: each external id has then in the table what the last of its rows says,
    -- each other asset of the organisation and the type what it had, and all others are as they were.
    pub upsert_assets-some :
        (rows : List Seed) (assets : List StoredAsset)
        → All (λ r. any (is_taken number json org type_id r.external_id) assets ≡ false) rows
        → (after : List StoredAsset) × (upsert_assets number json now org type_id rows assets
            ≡ some after)
          × IsSeeded org type_id rows assets after
    upsert_assets-some rows assets free =
        let (after, e) = returned rows assets free in
        (after, e, upsert_assets-IsSeeded rows assets after e)
