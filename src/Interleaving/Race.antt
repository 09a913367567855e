-- ===== src/Interleaving/Race.antt =====
-- handlers/websocket.go, setNotificationStatusAction, in two goroutines of one user.
use r2_notify_server.Prelude.{
  ℕ, String, ◌≡◌, ◌≢◌, refl, sym, ◌∙◌, ap, Bool, true, false, some, Result, ok, eqb_refl, eq_refl,
}
use r2_notify_server.Models.{UserId, Configuration}
use r2_notify_server.Data
use r2_notify_server.Json.{Json}
use r2_notify_server.Mongo.{Lawful}
use r2_notify_server.World.{Backend, World, LawfulRedis}
use r2_notify_server.ClientStore.{client_key, send_to_user, update_client_info}
use r2_notify_server.Repository.Configuration.Laws.{configuration_of, overwritten, update-view}
use r2_notify_server.Service
use r2_notify_server.Server.{notifications, configurations}
use r2_notify_server.Server.Status.{turned_off, silent}
use r2_notify_server.Interleaving.Program.{run, ◌>>=◌, call}
use r2_notify_server.Interleaving.Frames.{set_status_calls}
use r2_notify_server.Interleaving.Threads.{
  Thread, idle, runs, State, at_thread, does, Reach, here, later,
}
use r2_notify_server.Interleaving.OneStep.{Reach-trans, finishes, at_other}
use r2_notify_server.Interleaving.Statuses.{
  setting_to, Calls, resending, resent, resending_same, resent_redis, resent_stored,
  stored_settings,
}

module _ (b : Backend) (law : LawfulRedis b.redis) (lawful : Lawful b.configurations)
    (client : UserId) where
  -- setNotificationStatusAction for a message that parses.
  abbrev changing : Bool → Calls b law lawful client
  changing enable = do
    _ ← call ((configurations b).update (setting_to b law lawful client enable))
    _ ←
        call
          (update_client_info b (record (turned_off b law client) { enable_notification = enable }))
    resending b law lawful client enable

  changes :
      (event : Data.Configuration) (enable : Bool) (t : Thread b)
      → event.content.enable_notification ≡ enable
      → t
        ≡ runs
            (some client)
            (set_status_calls b (notifications b) (configurations b) (ok event) client)
      → t ≡ runs (some client) (changing enable)
  unfolding set_status_calls
  changes event enable t e h = h ∙ ap (λ x. runs (some client) (changing x)) e

  -- A goroutine's call of an operation, as a state.
  abbrev stepped : State b → ℕ → World b → Calls b law lawful client → State b
  stepped s i w rest = record {
    world = w;
    users = s.users;
    threads = at_thread b s.threads i (runs (some client) rest);
  }

  abbrev update_to : Bool → World b → World b
  update_to enable w = ((configurations b).update (setting_to b law lawful client enable) w).1

  abbrev save_to : Bool → World b → World b
  save_to enable w =
      (update_client_info b (record (turned_off b law client) { enable_notification = enable }) w).1

  abbrev saving : Bool → Calls b law lawful client
  saving enable = do
    _ ←
        call
          (update_client_info b (record (turned_off b law client) { enable_notification = enable }))
    resending b law lawful client enable

  -- Both have the new setting in the database, and then both write Redis, the first one last.
  abbrev crossed : World b → World b
  crossed w = save_to false (save_to true (update_to true (update_to false w)))

  crossing :
      (s : State b) (i k : ℕ)
      → i ≢ k
      → s.threads i ≡ runs (some client) (changing false)
      → s.threads k ≡ runs (some client) (changing true)
      → (t : State b) × Reach b s t
        × (t.world
            ≡ resent b law lawful client true (resent b law lawful client false (crossed s.world)))
        × (t.threads i ≡ idle)
        × (t.threads k ≡ idle)
  crossing s i k apart at_i at_k =
      let s1 = stepped s i (update_to false s.world) (saving false) in
      let s2 = stepped s1 k (update_to true s1.world) (saving true) in
      let s3 = stepped s2 k (save_to true s2.world) (resending b law lawful client true) in
      let s4 = stepped s3 i (save_to false s3.world) (resending b law lawful client false) in
      let k1 : s1.threads k ≡ runs (some client) (changing true) =
        at_other b s.threads i k _ (λ e. apart (sym e)) ∙ at_k in
      let k2 : s2.threads k ≡ runs (some client) (saving true) = rw eqb_refl refl in
      let i1 : s1.threads i ≡ runs (some client) (saving false) = rw eqb_refl refl in
      let i3 : s3.threads i ≡ runs (some client) (saving false) =
        at_other b s2.threads k i _ apart ∙ at_other b s1.threads k i _ apart ∙ i1 in
      let i4 : s4.threads i ≡ runs (some client) (resending b law lawful client false) =
        rw eqb_refl refl in
      let k3 : s3.threads k ≡ runs (some client) (resending b law lawful client true) =
        rw eqb_refl refl in
      let first = finishes b (resending b law lawful client false) s4 i (some client) i4 in
      let k5 : first.final.threads k ≡ runs (some client) (resending b law lawful client true) =
        first.others_same k (λ e. apart (sym e))
        ∙ at_other b s3.threads i k _ (λ e. apart (sym e))
        ∙ k3 in
      let second = finishes b (resending b law lawful client true) first.final k (some client) k5 in
      let r1 = later here (does i (some client) _ _ at_i) in
      let r2 = later r1 (does k (some client) _ _ k1) in
      let r3 = later r2 (does k (some client) _ _ k2) in
      let r4 = later r3 (does i (some client) _ _ i3) in
      (
        second.final,
        Reach-trans b s first.final second.final (Reach-trans b s s4 first.final r4 first.reached)
            second.reached,
        second.world_is
            ∙ ap (λ w. (run (resending b law lawful client true) w).1)
                (first.world_is ∙ resending_same b law lawful client false s4.world)
            ∙ resending_same b law lawful client true _,
        second.others_same i apart ∙ first.ended,
        second.ended,
      )

  crossed_setting :
      (old : Configuration) (w : World b)
      → configuration_of client (stored_settings b law lawful client w) ≡ some old
      → ((configurations b).update (setting_to b law lawful client false) w).0 ≡ ok tt
      → ((configurations b).update (setting_to b law lawful client true) (update_to false w)).0
        ≡ ok tt
      → configuration_of client (stored_settings b law lawful client (crossed w))
        ≡ some (
            overwritten
              (setting_to b law lawful client true)
              (overwritten (setting_to b law lawful client false) old))
  unfolding Service.Configuration.update update_client_info
  crossed_setting old w there first second =
      let after : configuration_of client (stored_settings b law lawful client (update_to false w))
          ≡ some (overwritten (setting_to b law lawful client false) old) =
        update-view b.configurations lawful (setting_to b law lawful client false) old client
          w.configurations there first
        ∙ rw (eq_refl client) refl in
      update-view b.configurations lawful (setting_to b law lawful client true)
        (overwritten (setting_to b law lawful client false) old) client
        (update_to false w).configurations after second
      ∙ rw (eq_refl client) refl

  -- When two goroutines of one user turn notifications off and on at the same time, the user has a
  -- configuration, the two updates and the write of Redis by the first goroutine, in the order
  -- off, on, succeed, and the text of the zero time reads back, both can come to their end with
  -- notifications enabled in the database and every message without the bypass refused.
  pub statuses_disagree :
      (s : State b) (i k : ℕ) (off on : Data.Configuration) (old : Configuration) (text : String)
      → i ≢ k
      → off.content.enable_notification ≡ false
      → on.content.enable_notification ≡ true
      → s.threads i
        ≡ runs
            (some client)
            (set_status_calls b (notifications b) (configurations b) (ok off) client)
      → s.threads k
        ≡ runs
            (some client)
            (set_status_calls b (notifications b) (configurations b) (ok on) client)
      → configuration_of client (stored_settings b law lawful client s.world) ≡ some old
      → ((configurations b).update (setting_to b law lawful client false) s.world).0 ≡ ok tt
      → ((configurations b).update
          (setting_to b law lawful client true)
          (update_to false s.world)).0
        ≡ ok tt
      → (update_client_info b
          (turned_off b law client)
          (save_to true (update_to true (update_to false s.world)))).0
        ≡ ok tt
      → b.times.format 0 ≡ ok text
      → b.times.parse text ≡ ok 0
      → (t : State b) × Reach b s t
        × (t.threads i ≡ idle)
        × (t.threads k ≡ idle)
        × (configuration_of client (stored_settings b law lawful client t.world)
            ≡ some (record old { enable_notifications = true; user_id = client }))
        × ((payload : Result Json) → (send_to_user b client payload false t.world).0 ≢ ok tt)
  unfolding update_client_info
  statuses_disagree s i k off on old text apart is_off is_on at_i at_k there first second saved
        written read =
      let (t, r, world_is, i_done, k_done) =
        crossing s i k apart (changes off false (s.threads i) is_off at_i)
          (changes on true (s.threads k) is_on at_k) in
      let w = crossed s.world in
      (
        t,
        r,
        i_done,
        k_done,
        ap (λ v. configuration_of client (stored_settings b law lawful client v)) world_is
            ∙ ap (configuration_of client) (
                resent_stored b law lawful client true (resent b law lawful client false w)
                ∙ resent_stored b law lawful client false w)
            ∙ crossed_setting old s.world there first second,
        λ payload.
            silent b law client payload text t.world
              (save_to true (update_to true (update_to false s.world))) written read saved
              (ap (λ v. b.redis.view v.redis (client_key client)) world_is
                ∙ resent_redis b law lawful client true (client_key client)
                    (resent b law lawful client false w)
                ∙ resent_redis b law lawful client false (client_key client) w),
      )
