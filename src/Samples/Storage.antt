-- ===== src/Samples/Storage.antt =====
-- The theorems on the repositories, on collections in memory.
use r2_notify_server.Prelude.{
  String, ◌≡◌, ◌≢◌, refl, ap, ◌==◌, true, false, not, some, [], ◌∷◌, select, eqb, find_first,
}
use r2_notify_server.Mongo.{Collection, Lawful}
use r2_notify_server.Repository.Notification.{find_all, find_by_id, create}
use r2_notify_server.Repository.Notification.Schema.{notification_schema}
use r2_notify_server.Repository.Notification.Scope.{
  Scope, everything, app, group, one, is_of, is_unread, as_read, mark, delete,
}
use r2_notify_server.Repository.Notification.Writes.{view-mark, view-delete}
use r2_notify_server.Repository.Notification.Reads.{find_all-view, find_all-mark, find_all-delete}
use r2_notify_server.Repository.Notification.Isolation.{
  delete-other_user, mark-other_user, mark-one_any_owner,
}
use r2_notify_server.Repository.Notification
use r2_notify_server.Repository.Notification.Scope
use r2_notify_server.Text.{trim_quotes, trim_space}
use r2_notify_server.Samples.Memory.{memory, memory-Lawful}
use r2_notify_server.Samples.Parts.{id_texts}
use r2_notify_server.Samples.Start.{sample, two_docs}

abbrev coll : Collection notification_schema
coll = memory notification_schema

abbrev law : Lawful coll
law = memory-Lawful notification_schema

bob_is_not_ann : ◌≢◌ {A = String} "bob" "ann"
bob_is_not_ann e = let differ : true ≡ false = ap (λ (s : String). s == "bob") e in cc

view-mark_example :
    coll.view (mark coll id_texts everything 1000001 "ann" two_docs).1
    ≡ as_read 1000000 (sample 1 "ann" false) ∷ sample 2 "bob" false ∷ []
unfolding mark Notification.mark_as_read
view-mark_example = view-mark coll id_texts law everything 1000001 "ann" two_docs refl

view-delete_example :
    coll.view (delete coll id_texts (group "ci" "builds") "ann" two_docs).1
    ≡ sample 2 "bob" false ∷ []
unfolding delete Notification.delete_group_notifications Notification.clean trim_quotes trim_space
view-delete_example = view-delete coll id_texts law (group "ci" "builds") "ann" two_docs refl

find_all-view_example :
    (sample 1 "ann" false ∷ [] ≡ select (is_unread "ann") (coll.view two_docs))
    × (coll.view (find_all coll id_texts "ann" two_docs).1 ≡ coll.view two_docs)
unfolding find_all
find_all-view_example =
    find_all-view coll id_texts law "ann" two_docs (sample 1 "ann" false ∷ []) refl

find_all-mark_example :
    [] ≡ select (λ n. not (Scope.reaches id_texts (app "ci") "ann" n)) (sample 1 "ann" false ∷ [])
unfolding mark Notification.mark_app_as_read find_all Notification.clean trim_quotes trim_space
find_all-mark_example = find_all-mark coll id_texts law (app "ci") 5 "ann" two_docs [] refl refl

find_all-delete_example :
    [] ≡ select (λ n. not (Scope.covers id_texts (app "ci") "ann" n)) (sample 1 "ann" false ∷ [])
unfolding delete Notification.delete_app_notifications find_all Notification.clean trim_quotes
    trim_space
find_all-delete_example = find_all-delete coll id_texts law (app "ci") "ann" two_docs [] refl refl

delete-other_user_example :
    select (is_of "bob") (coll.view (delete coll id_texts everything "ann" two_docs).1)
    ≡ sample 2 "bob" false ∷ []
delete-other_user_example =
    delete-other_user coll id_texts law "ann" "bob" bob_is_not_ann everything two_docs

mark-other_user_example :
    select (is_of "bob") (coll.view (mark coll id_texts (app "ci") 5 "ann" two_docs).1)
    ≡ sample 2 "bob" false ∷ []
mark-other_user_example =
    mark-other_user coll id_texts law "ann" "bob" bob_is_not_ann (app "ci") 5 two_docs (λ id e. cc)

mark-one_any_owner_example :
    find_first
      (λ m. eqb m.id 2)
      (coll.view (mark coll id_texts (one "000000000000000000000002") 5 "ann" two_docs).1)
    ≡ some (as_read 5 (sample 2 "bob" false))
unfolding mark Notification.mark_notification_as_read Notification.update_converted
    Notification.clean trim_quotes trim_space
mark-one_any_owner_example =
    mark-one_any_owner coll id_texts law "000000000000000000000002" 2 5 "ann" (sample 2 "bob" false)
      two_docs refl refl refl
