-- ===== src/Catalogue/Tests.antt =====
-- The catalogue of the sample studio.
use xgamefi.Prelude.{
  ◌≡◌, refl, true, some, List, [], ◌∷◌, codes, where_is, update, find, count, text_eq,
}
use xgamefi.Schema.{Section}
use xgamefi.World.{ok}
use xgamefi.Catalogue.{
  merge_new_items_into_layout, upsert_catalogue_items, upsert_rows, upsert_row, sync_rows, fits,
  catalogue_sync_processor,
}
use xgamefi.Samples.{world, external}

abbrev layout : List Section
layout = record { title = codes "All"; item_ids = 11 ∷ [] } ∷ []

abbrev extended : List Section
extended = record { title = codes "All"; item_ids = 11 ∷ 12 ∷ [] } ∷ []

merge_run : merge_new_items_into_layout (some layout) (11 ∷ 12 ∷ []) ≡ some extended
unfolding merge_new_items_into_layout where_is
merge_run = refl

sync_run :
    (catalogue_sync_processor external 1 world).0
    ≡ ok (record { upserted = 1; deactivated = 1; shop_updated = true })
unfolding catalogue_sync_processor fits upsert_catalogue_items sync_rows upsert_rows upsert_row
    merge_new_items_into_layout where_is update find count text_eq
sync_run = refl
