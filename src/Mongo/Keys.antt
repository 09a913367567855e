-- ===== src/Mongo/Keys.antt =====
-- Changes of the first document with a key, and of all documents with it.
use r2_notify_server.Prelude.{
  ◌≡◌, refl, Bool, false, not, ◌&&◌, List, [], ◌∷◌, any, select, change_where, change_first,
  drop_first, arith,
}
use r2_notify_server.Models.{ObjectId}
use r2_notify_server.Mongo.{Schema, has_key, HasDistinctKeys}

module _ {Doc : Type 0} (schema : Schema Doc) (f : Doc → Doc) where
  -- Under distinct keys the first document with a key is the only one.
  change_where_absent :
      (i : ObjectId) (ds : List Doc)
      → any (has_key schema i) ds ≡ false
      → change_where (has_key schema i) f ds ≡ ds
  change_where_absent i [] h = refl
  change_where_absent i (d ∷ ds) h = ground (arith, change_where_absent i ds)

  pub change_first-eq-change_where :
      (i : ObjectId) (ds : List Doc)
      → HasDistinctKeys schema ds
      → change_first (has_key schema i) f ds ≡ change_where (has_key schema i) f ds
  change_first-eq-change_where i [] h = refl
  change_first-eq-change_where i (d ∷ ds) h =
      ground (arith, change_where_absent i ds, change_first-eq-change_where i ds h.1)

module _ {Doc : Type 0} (schema : Schema Doc) (test : Doc → Bool) (i : ObjectId) where
  select_absent :
      (ds : List Doc)
      → any (has_key schema i) ds ≡ false
      → select (λ d. not (test d && has_key schema i d)) ds ≡ ds
  select_absent [] h = refl
  select_absent (d ∷ ds) h = ground (arith, select_absent ds)

  pub drop_first-eq-select :
      (ds : List Doc)
      → HasDistinctKeys schema ds
      → drop_first (λ d. test d && has_key schema i d) ds
        ≡ select (λ d. not (test d && has_key schema i d)) ds
  drop_first-eq-select [] h = refl
  drop_first-eq-select (d ∷ ds) h = ground (arith, select_absent ds, drop_first-eq-select ds h.1)
