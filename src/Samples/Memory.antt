-- ===== src/Samples/Memory.antt =====
-- A collection in memory that does what the driver is documented to do: its state is a list of
-- documents with distinct keys, and a write that would repeat a key reports an error.
use r2_notify_server.Prelude.{
  ℕ, ◌≡◌, refl, sym, ◌∙◌, ap, Bool, true, false, not, Option, none, some, List, [], ◌∷◌, ◌++◌, map,
  Result, ok, err, other, no_documents, eq_of_ok, select, find_first, change_where, change_first,
  drop_first, suc, any, arith, ◌⊎◌, inl, inr, Bool-cases, if◌then◌else◌, ◌&&◌,
}
use r2_notify_server.Models.{ObjectId}
use r2_notify_server.Mongo.{
  Schema, all_meet, assign_all, has_key, HasDistinctKeys, Cursor, SingleResult, failed, found,
  object_id, UpdateResult, Collection, Lawful, Partly, done, left, hit,
}

module _ {A : Type 0} (test : A → Bool) where
  Partly-refl : (change : A → List A) (xs : List A) → Partly test change xs xs
  Partly-refl change [] = done
  Partly-refl change (x ∷ xs) = left (Partly-refl change xs)

  Partly-change_where :
      (f : A → A) (xs : List A) → Partly test (λ x. f x ∷ []) xs (change_where test f xs)
  Partly-change_where f [] = done
  Partly-change_where f (x ∷ xs) = elim (Bool-cases (test x)) [
    | inl good ↦ hit good (Partly-change_where f xs) (rw good refl)
    | inr bad ↦ rw bad (left (Partly-change_where f xs))
  ]

  Partly-select : (xs : List A) → Partly test (λ _. []) xs (select (λ x. not (test x)) xs)
  Partly-select [] = done
  Partly-select (x ∷ xs) = elim (Bool-cases (test x)) [
    | inl good ↦ hit good (Partly-select xs) (rw good refl)
    | inr bad ↦ rw bad (left (Partly-select xs))
  ]

  Partly-drop_first : (xs : List A) → Partly test (λ _. []) xs (drop_first test xs)
  Partly-drop_first [] = done
  Partly-drop_first (x ∷ xs) = elim (Bool-cases (test x)) [
    | inl good ↦ hit good (Partly-refl (λ _. []) xs) (rw good refl)
    | inr bad ↦ rw bad (left (Partly-drop_first xs))
  ]

map_ok-injective : {A : Type 0} (xs ys : List A) → map ok xs ≡ map ok ys → xs ≡ ys
map_ok-injective [] [] h = refl
map_ok-injective [] (y ∷ ys) h = cc
map_ok-injective (x ∷ xs) [] h = cc
map_ok-injective (x ∷ xs) (y ∷ ys) h = ground (arith, map_ok-injective xs ys)

-- The split on a test, as a value that computes.
abbrev decide : (b : Bool) → (b ≡ true) ⊎ (b ≡ false)
decide true = inl refl
decide false = inr refl

abbrev result_of : {A : Type 0} → Option A → SingleResult A
result_of none = failed no_documents
result_of (some a) = found (ok a)

result_of-found : {A : Type 0} (o : Option A) (a : A) → result_of o ≡ found (ok a) → o ≡ some a
result_of-found none a h = cc
result_of-found (some x) a h = cc

result_of-missing : {A : Type 0} (o : Option A) → result_of o ≡ failed no_documents → o ≡ none
result_of-missing none h = refl
result_of-missing (some x) h = cc

module _ {Doc : Type 0} (schema : Schema Doc) where
  abbrev distinct_keys : List Doc → Bool
  distinct_keys [] = true
  distinct_keys (d ∷ ds) = not (any (has_key schema (schema.key d)) ds) && distinct_keys ds

  distinct_keys-HasDistinctKeys :
      (ds : List Doc) → distinct_keys ds ≡ true → HasDistinctKeys schema ds
  distinct_keys-HasDistinctKeys [] h = tt
  distinct_keys-HasDistinctKeys (d ∷ ds) h = ground (arith, distinct_keys-HasDistinctKeys ds)

  pub record Stored : Type 0 where
    pub docs : List Doc
    pub distinct : distinct_keys docs ≡ true

  -- A write that has `docs` as its outcome.
  abbrev commit :
      {A : Type 0} (a : A) (docs : List Doc)
      → (distinct_keys docs ≡ true) ⊎ (distinct_keys docs ≡ false)
      → Stored
      → Result A × Stored
  commit a docs (inl good) s = (ok a, record { docs = docs; distinct = good })
  commit a docs (inr bad) s = (err (other "duplicate key"), s)

  abbrev write : {A : Type 0} (a : A) (docs : List Doc) → Stored → Result A × Stored
  write a docs s = commit a docs (decide (distinct_keys docs)) s

  commit-ok :
      {A : Type 0} (a r : A) (docs : List Doc)
      (t : (distinct_keys docs ≡ true) ⊎ (distinct_keys docs ≡ false)) (s : Stored)
      → (commit a docs t s).0 ≡ ok r
      → (a ≡ r) × ((commit a docs t s).1.docs ≡ docs)
  commit-ok a r docs (inl good) s h = (eq_of_ok h, refl)
  commit-ok a r docs (inr bad) s h = cc

  commit-either :
      {A : Type 0} (P : List Doc → Type 0) (a : A) (docs : List Doc)
      (t : (distinct_keys docs ≡ true) ⊎ (distinct_keys docs ≡ false)) (s : Stored)
      → P docs
      → P s.docs
      → P (commit a docs t s).1.docs
  commit-either P a docs (inl good) s new old = new
  commit-either P a docs (inr bad) s new old = old

  abbrev matched : List schema.Cond → List Doc → ℕ
  matched f ds = if any (all_meet schema f) ds then 1 else 0

  abbrev counted : List schema.Cond → List Doc → UpdateResult
  counted f ds = record { matched_count = matched f ds; modified_count = matched f ds }

  -- A new document gets the number behind the number of documents as its key.
  abbrev length : List Doc → ℕ
  length [] = 0
  length (d ∷ ds) = suc (length ds)

  abbrev pub memory : Collection schema
  memory = record {
    State = Stored;
    find = λ f s.
        (ok (record { items = map ok (select (all_meet schema f) s.docs); failure = none }), s);
    find_one = λ f s. (result_of (find_first (all_meet schema f) s.docs), s);
    insert_one = λ d s.
        let i = suc (length s.docs) in write (object_id i) (s.docs ++ schema.stored i d ∷ []) s;
    update_many = λ f u s.
        write (counted f s.docs) (change_where (all_meet schema f) (assign_all schema u) s.docs) s;
    update_one = λ f u s.
        write (counted f s.docs) (change_first (all_meet schema f) (assign_all schema u) s.docs) s;
    update_by_id = λ i u s.
        write (record { matched_count = 1; modified_count = 1 })
          (change_first (has_key schema i) (assign_all schema u) s.docs) s;
    delete_many = λ f s. write 1 (select (λ d. not (all_meet schema f d)) s.docs) s;
    delete_one = λ f s. write (matched f s.docs) (drop_first (all_meet schema f) s.docs) s;
    view = λ s. s.docs;
  }

  pub memory-Lawful : Lawful memory
  memory-Lawful = record {
    keys_distinct = λ s. distinct_keys-HasDistinctKeys s.docs s.distinct;
    find_reads = λ f s. refl;
    find_complete = λ f s c ds e whole items.
        map_ok-injective ds _ (sym items ∙ ap (λ (x : Cursor Doc). x.items) (sym (eq_of_ok e)));
    find_one_reads = λ f s. refl;
    find_one_found = λ f s d h. result_of-found _ d h;
    find_one_missing = λ f s h. result_of-missing _ h;
    insert_one_adds = λ d s i h.
        let (same, e) =
          commit-ok _ _ _
            (decide (distinct_keys (s.docs ++ schema.stored (suc (length s.docs)) d ∷ []))) s h in
        e ∙ ap (λ k. s.docs ++ schema.stored k d ∷ []) (object_id-injective same);
    update_many_changes = λ f u s r h. (commit-ok _ r _ (decide _) s h).1;
    update_many_partly = λ f u s.
        commit-either (Partly (all_meet schema f) (λ d. assign_all schema u d ∷ []) s.docs)
          (counted f s.docs) _ (decide _) s (Partly-change_where _ _ s.docs)
          (Partly-refl _ _ s.docs);
    update_one_changes = λ f u s r h. (commit-ok _ r _ (decide _) s h).1;
    update_one_matched = λ f u s r h.
        ap (λ (x : UpdateResult). x.matched_count) (sym (commit-ok _ r _ (decide _) s h).0);
    update_by_id_changes = λ i u s r h. (commit-ok _ r _ (decide _) s h).1;
    delete_many_drops = λ f s n h. (commit-ok _ n _ (decide _) s h).1;
    delete_many_partly = λ f s.
        commit-either (Partly (all_meet schema f) (λ _. []) s.docs) 1 _ (decide _) s
          (Partly-select _ s.docs) (Partly-refl _ _ s.docs);
    delete_one_drops = λ f s n h. (commit-ok _ n _ (decide _) s h).1;
    delete_one_deleted = λ f s n h. sym (commit-ok _ n _ (decide _) s h).0;
    delete_one_partly = λ f s.
        commit-either (Partly (all_meet schema f) (λ _. []) s.docs) (matched f s.docs) _ (decide _)
          s (Partly-drop_first _ s.docs) (Partly-refl _ _ s.docs);
  }
    where
      object_id-injective : {i j : ObjectId} → object_id i ≡ object_id j → i ≡ j
      object_id-injective e = cc
