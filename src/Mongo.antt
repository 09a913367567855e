-- ===== src/Mongo.antt =====
-- The part of the MongoDB driver that the repositories call. The driver and the server behind it are
-- not in the repository, so a collection is a parameter: its operations are an interface, and what
-- they are documented to do is the record `Lawful`, a hypothesis of the theorems that need it.
mod Partial
pub mod Keys
pub use Partial.*
use r2_notify_server.Prelude.{
  ℕ, String, ◌≡◌, Bool, true, false, not, Option, none, some, List, [], ◌∷◌, ◌++◌, map, Result, ok,
  err, Error, no_documents, select, find_first, change_where, change_first, drop_first, any, eqb,
  if◌then◌else◌,
}
use r2_notify_server.Models.{ObjectId}

-- How documents of one Go struct are selected and changed: the conditions of a filter, the
-- assignments of a `$set`, the `_id` field, and the document that an insert leaves under an `_id`.
pub record Schema (Doc : Type 0) : Type 1 where
  pub Cond : Type 0
  pub Assign : Type 0
  pub meets : Cond → Doc → Bool
  pub assign : Assign → Doc → Doc
  pub key : Doc → ObjectId
  pub stored : ObjectId → Doc → Doc

module _ {Doc : Type 0} (schema : Schema Doc) where
  -- A bson.M filter selects what meets all its conditions.
  abbrev pub all_meet : List schema.Cond → Doc → Bool
  all_meet [] d = true
  all_meet (c ∷ cs) d = if schema.meets c d then all_meet cs d else false

  abbrev pub assign_all : List schema.Assign → Doc → Doc
  assign_all [] d = d
  assign_all (a ∷ as') d = assign_all as' (schema.assign a d)

  abbrev pub has_key : ObjectId → Doc → Bool
  has_key i d = eqb (schema.key d) i

  -- The `_id` index is unique.
  abbrev pub HasDistinctKeys : List Doc → Type 0
  HasDistinctKeys [] = Unit
  HasDistinctKeys (d ∷ ds) = (any (has_key (schema.key d)) ds ≡ false) × HasDistinctKeys ds

-- The hexadecimal text of an ObjectID, and ObjectIDFromHex.
pub record ObjectIds : Type 0 where
  pub hex : ObjectId → String
  pub from_hex : String → Result ObjectId

-- A cursor, run to its end: what `Decode` gave for each document, and `cursor.Err()`.
pub record Cursor (Doc : Type 0) : Type 0 where
  pub items : List (Result Doc)
  pub failure : Option Error

-- The SingleResult of FindOne: an error of its own, or a document with what `Decode` gives.
pub data SingleResult (Doc : Type 0) : Type 0 where
  failed : Error → SingleResult Doc
  found : Result Doc → SingleResult Doc

-- The InsertedID of an insert, an `interface{}`.
pub data InsertedId : Type 0 where
  object_id : ObjectId → InsertedId
  other_id : InsertedId

pub record UpdateResult : Type 0 where
  pub matched_count : ℕ
  pub modified_count : ℕ

pub record Collection {Doc : Type 0} (schema : Schema Doc) : Type 1 where
  pub State : Type 0
  pub find : List schema.Cond → State → Result (Cursor Doc) × State
  pub find_one : List schema.Cond → State → SingleResult Doc × State
  pub insert_one : Doc → State → Result InsertedId × State
  pub update_many : List schema.Cond → List schema.Assign → State → Result UpdateResult × State
  pub update_one : List schema.Cond → List schema.Assign → State → Result UpdateResult × State
  pub update_by_id : ObjectId → List schema.Assign → State → Result UpdateResult × State
  pub delete_many : List schema.Cond → State → Result ℕ × State
  pub delete_one : List schema.Cond → State → Result ℕ × State
  -- The documents of the collection, in its natural order.
  pub view : State → List Doc

-- What the driver is documented to do. A write that fails may have been carried out in part, on
-- documents that its filter selects.
pub record Lawful {Doc : Type 0} {schema : Schema Doc} (coll : Collection schema) : Type 0 where
  pub keys_distinct : (s : coll.State) → HasDistinctKeys schema (coll.view s)
  pub find_reads :
      (f : List schema.Cond) (s : coll.State) → coll.view (coll.find f s).1 ≡ coll.view s
  pub find_complete :
      (f : List schema.Cond) (s : coll.State) (c : Cursor Doc) (ds : List Doc)
      → (coll.find f s).0 ≡ ok c
      → c.failure ≡ none
      → c.items ≡ map ok ds
      → ds ≡ select (all_meet schema f) (coll.view s)
  pub find_one_reads :
      (f : List schema.Cond) (s : coll.State) → coll.view (coll.find_one f s).1 ≡ coll.view s
  pub find_one_found :
      (f : List schema.Cond) (s : coll.State) (d : Doc)
      → (coll.find_one f s).0 ≡ found (ok d)
      → find_first (all_meet schema f) (coll.view s) ≡ some d
  pub find_one_missing :
      (f : List schema.Cond) (s : coll.State)
      → (coll.find_one f s).0 ≡ failed no_documents
      → find_first (all_meet schema f) (coll.view s) ≡ none
  pub insert_one_adds :
      (d : Doc) (s : coll.State) (i : ObjectId)
      → (coll.insert_one d s).0 ≡ ok (object_id i)
      → coll.view (coll.insert_one d s).1 ≡ coll.view s ++ schema.stored i d ∷ []
  pub update_many_changes :
      (f : List schema.Cond) (u : List schema.Assign) (s : coll.State) (r : UpdateResult)
      → (coll.update_many f u s).0 ≡ ok r
      → coll.view (coll.update_many f u s).1
        ≡ change_where (all_meet schema f) (assign_all schema u) (coll.view s)
  pub update_many_partly :
      (f : List schema.Cond) (u : List schema.Assign) (s : coll.State)
      → Partly
          (all_meet schema f)
          (λ d. assign_all schema u d ∷ [])
          (coll.view s)
          (coll.view (coll.update_many f u s).1)
  pub update_one_changes :
      (f : List schema.Cond) (u : List schema.Assign) (s : coll.State) (r : UpdateResult)
      → (coll.update_one f u s).0 ≡ ok r
      → coll.view (coll.update_one f u s).1
        ≡ change_first (all_meet schema f) (assign_all schema u) (coll.view s)
  pub update_one_matched :
      (f : List schema.Cond) (u : List schema.Assign) (s : coll.State) (r : UpdateResult)
      → (coll.update_one f u s).0 ≡ ok r
      → r.matched_count ≡ (if any (all_meet schema f) (coll.view s) then 1 else 0)
  pub update_by_id_changes :
      (i : ObjectId) (u : List schema.Assign) (s : coll.State) (r : UpdateResult)
      → (coll.update_by_id i u s).0 ≡ ok r
      → coll.view (coll.update_by_id i u s).1
        ≡ change_first (has_key schema i) (assign_all schema u) (coll.view s)
  pub delete_many_drops :
      (f : List schema.Cond) (s : coll.State) (n : ℕ)
      → (coll.delete_many f s).0 ≡ ok n
      → coll.view (coll.delete_many f s).1 ≡ select (λ d. not (all_meet schema f d)) (coll.view s)
  pub delete_many_partly :
      (f : List schema.Cond) (s : coll.State)
      → Partly (all_meet schema f) (λ _. []) (coll.view s) (coll.view (coll.delete_many f s).1)
  pub delete_one_drops :
      (f : List schema.Cond) (s : coll.State) (n : ℕ)
      → (coll.delete_one f s).0 ≡ ok n
      → coll.view (coll.delete_one f s).1 ≡ drop_first (all_meet schema f) (coll.view s)
  pub delete_one_deleted :
      (f : List schema.Cond) (s : coll.State) (n : ℕ)
      → (coll.delete_one f s).0 ≡ ok n
      → n ≡ (if any (all_meet schema f) (coll.view s) then 1 else 0)
  pub delete_one_partly :
      (f : List schema.Cond) (s : coll.State)
      → Partly (all_meet schema f) (λ _. []) (coll.view s) (coll.view (coll.delete_one f s).1)
