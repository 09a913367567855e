-- ===== src/Samples/Parts.antt =====
-- The parameters of the model as concrete functions, and that they do what is documented.
use r2_notify_server.Prelude.{
  String, ◌≡◌, refl, sym, ◌∙◌, ap, Bool, true, false, ◌||◌, Option, none, some, List, [], ◌∷◌, ◌++◌,
  Result, ok, err, Error, other, ◌>>=◌, >>=-ok, ◌==◌, eq_iff, eq_refl, eqb, arith, if◌then◌else◌,
  eq_of_ok,
}
use r2_notify_server.Models.{Conn}
use r2_notify_server.Data.{CreateNotificationRequest}
use r2_notify_server.Json.{Json, Bytes, empty, malformed, json, TimeText}
use r2_notify_server.Mongo.{ObjectIds}
use r2_notify_server.World.{Redis, LawfulRedis, Sockets, LawfulSockets}
use r2_notify_server.Utils.{Jwt, LawfulJwt, SigningMethod, hmac, Token}
use r2_notify_server.Controller.{Binding, LawfulBinding}

abbrev pub Cells : Type 0
Cells = String → Option Bytes

abbrev stored_bytes : Option Bytes → Result Bytes
stored_bytes none = err (other "redis: nil")
stored_bytes (some v) = ok v

abbrev pub redis_cells : Redis
redis_cells = record {
  State = Cells;
  get = λ k s. (stored_bytes (s k), s);
  set = λ k v s. (none, λ j. if k == j then some v else s j);
  del = λ k s. (none, λ j. if k == j then none else s j);
  view = λ s. s;
}

stored_bytes-ok : (o : Option Bytes) (v : Bytes) → stored_bytes o ≡ ok v → o ≡ some v
stored_bytes-ok none v h = cc
stored_bytes-ok (some w) v h = cc

pub redis_cells-Lawful : LawfulRedis redis_cells
redis_cells-Lawful = record {
  get_reads = λ k j s. refl;
  get_found = λ k s v h. stored_bytes-ok (s k) v h;
  set_stores = λ k v s h. rw eq_refl refl;
  set_spares = λ k j v s apart. ground (arith, eq_iff k j);
  del_removes = λ k s h. rw eq_refl refl;
  del_spares = λ k j s apart. ground (arith, eq_iff k j);
}

-- Connection 9 is broken: every write to it fails.
abbrev broken : Conn → Bool
broken c = eqb c 9

abbrev pub logs : Sockets
logs = record {
  State = Conn → List Json;
  write = λ c j s.
      if broken c
      then (some (other "broken pipe"), s)
      else (none, λ d. if eqb c d then s d ++ j ∷ [] else s d);
  ping = λ c s. (if broken c then some (other "broken pipe") else none, s);
  close = λ c s. s;
  sent = λ s. s;
}

logs_sends :
    (t : Bool) (c d : Conn) (j : Json) (s : Conn → List Json)
    → let r : Option Error × (Conn → List Json) =
        if t
        then (some (other "broken pipe"), s)
        else (none, λ d. if eqb c d then s d ++ j ∷ [] else s d) in
      r.0 ≡ none → r.1 d ≡ (if eqb c d then s d ++ j ∷ [] else s d)
logs_sends true c d j s h = cc
logs_sends false c d j s h = refl

logs_fails :
    (t : Bool) (c d : Conn) (j : Json) (s : Conn → List Json) (e : Error)
    → let r : Option Error × (Conn → List Json) =
        if t
        then (some (other "broken pipe"), s)
        else (none, λ d. if eqb c d then s d ++ j ∷ [] else s d) in
      r.0 ≡ some e → r.1 d ≡ s d
logs_fails true c d j s e h = refl
logs_fails false c d j s e h = cc

pub logs-Lawful : LawfulSockets logs
logs-Lawful = record {
  write_sends = λ c d j s h. logs_sends (broken c) c d j s h;
  write_fails = λ c d j s e h. logs_fails (broken c) c d j s e h;
  ping_sends_no_text = λ c d s. refl;
  close_sends_nothing = λ c d s. refl;
}

-- The texts of the ids 1 and 2.
abbrev pub id_texts : ObjectIds
id_texts = record {
  hex = λ i. if eqb i 1 then "000000000000000000000001" else "000000000000000000000002";
  from_hex = λ s.
      if s == "000000000000000000000001"
      then ok 1
      else if s == "000000000000000000000002"
      then ok 2
      else err (other "not an ObjectID");
}

-- The texts of the zero time and of one millisecond later.
abbrev pub time_texts : TimeText
time_texts = record {
  format = λ t.
      if eqb t 0
      then ok "0001-01-01T00:00:00Z"
      else if eqb t 1000000
      then ok "0001-01-01T00:00:00.001Z"
      else err (other "out of range");
  parse = λ s.
      if s == "0001-01-01T00:00:00Z"
      then ok 0
      else if s == "0001-01-01T00:00:00.001Z"
      then ok 1000000
      else err (other "no time");
}

-- One token, for the user ann.
abbrev ann_token : Token
ann_token = record { method = hmac; valid = true; subject = some "ann" }

abbrev pub one_token : Jwt
one_token = record {
  parse_with_claims = λ text key.
      if text == "good" then key hmac >>= (λ _. ok ann_token) else err (other "malformed");
}

parsed_keyed :
    (known : Bool) (key : SigningMethod → Result String) (t : Token)
    → (if known then key hmac >>= (λ _. ok ann_token) else err (other "malformed")) ≡ ok t
    → (secret : String) × (key t.method ≡ ok secret)
parsed_keyed true key t h =
    let (secret, e, g) = >>=-ok (key hmac) (λ _. ok ann_token) h in
    (secret, ap (λ (x : Token). key x.method) (sym (eq_of_ok g)) ∙ e)
parsed_keyed false key t h = cc

pub one_token-Lawful : LawfulJwt one_token
one_token-Lawful = record { keyed = λ text key t h. parsed_keyed (text == "good") key t h }

abbrev bound : Bytes → Result CreateNotificationRequest
bound (json j) = ok (record { group_key = "builds"; message = "done"; status = "success" })
bound empty = err (other "EOF")
bound malformed = err (other "invalid character")

abbrev pub one_body : Binding
one_body = record {
  bind_json = bound;
  validate = λ p.
      if p.group_key == "" || p.message == "" || p.status == ""
      then some (other "required")
      else none;
}

pub one_body-Lawful : LawfulBinding one_body
one_body-Lawful = record {
  required = λ p. ground (arith, eq_iff p.group_key "", eq_iff p.message "", eq_iff p.status "");
}
