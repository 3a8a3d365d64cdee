-- ===== src/Core/Tests.antt =====
-- Runs of the router and the registry: messages are numbers, those below 100 requests.
use mine_net.Base.{
  ℕ, ◌+◌, ◌≡◌, ◌↔◌, refl, ap, sym, Bool, ◌&&◌, ◌||◌, Option, none, some, List, [], ◌∷◌, ◌++◌,
  Outcome, ok, err, panic, String, ltb, leb, ◌==◌, if◌then◌else◌, arith,
}
use mine_net.Base.Int.{pos}
use mine_net.Base.Map.{Map, nat_key, string_key, lookup}
use mine_net.Network.Errors.{Error}
use mine_net.Network.Packet.{Packet, new_packet, cmd_reply}
use mine_net.Network.Packet.Transform.{Bytes}
use mine_net.Core.Errors.{RouterError, proto}
use mine_net.Core.Registry.{
  MessageTypeInfo, MessageRegistry, get_message_info, get_message_type, new_message_registry,
  new_message_registry_lem, info_or,
}
use mine_net.Core.Router.{
  BaseMessage, Reflection, Protobuf, Call, panicked, two, Handler, func, Router, new_router,
  register_handler, get_msg_type,
}
use mine_net.Core.Dispatch.{
  handle, handle_request, read_request, request_type_of, call_handler, call_function, call_fitting,
  finish_call, settle,
}
use mine_net.Core.Validation.{IsHandler, Stored, register_handler_lem}
use mine_net.Core.Requests.{Routes, reply_to, handle_answer, handle_quiet}

-- 1 to 3 are the interfaces of contexts, messages and errors; 10 and 20 are the structs of requests
-- and responses, 11 and 21 their pointers; 0 is the type of the context.
abbrev pub types : Reflection
types = record {
  elem = λ t. if t == 11 then ok 10 else if t == 21 then ok 20 else panic;
  struct_of = λ t. if t == 11 then 10 else if t == 21 then 20 else t;
  is_interface = λ t. leb 1 t && leb t 3;
  implements = λ t u. t == u || (t == 0 && u == 1) || (u == 2 && (t == 11 || t == 21));
  assignable = λ t u. t == u;
  context_type = 1;
  message_type = 2;
  error_type = 3;
}

abbrev pub read_message : ℕ → Bytes → Outcome RouterError ℕ
read_message t (b ∷ []) = ok b
read_message t bs = err (proto 0)

abbrev pub write_base : BaseMessage → Outcome RouterError Bytes
write_base b = ok (b.msg_type ∷ b.request_id ∷ b.payload)

abbrev pub read_base : Bytes → Outcome RouterError BaseMessage
read_base (t ∷ i ∷ bs) = ok (record { msg_type = t; payload = bs; request_id = i })
read_base bs = err (proto 1)

pub read_base-write_base :
    (b : BaseMessage) (bs : Bytes) → write_base b ≡ ok bs → read_base bs ≡ ok b
read_base-write_base b bs e =
    let same : b.msg_type ∷ b.request_id ∷ b.payload ≡ bs = cc in ap read_base (sym same)

abbrev pub numbers : Protobuf ℕ
numbers = record {
  type_of = λ m. if ltb m 100 then 11 else 21;
  full_name = λ m. if ltb m 100 then "LoginRequest" else "LoginResponse";
  marshal = λ m. ok (m ∷ []);
  unmarshal = read_message;
  marshal_base = write_base;
  unmarshal_base = read_base;
  unmarshal_base-marshal_base = read_base-write_base;
}

abbrev pub login_info : MessageTypeInfo
login_info = record {
  msg_type = 1001;
  request_type = some 10;
  reply_type = none;
  name = "MSG_TYPE_LOGIN_REQ";
}

abbrev registry : MessageRegistry
registry = record { message_types = []; message_infos = (1001, login_info) ∷ [] }

abbrev pub login : ℕ → Call ℕ
login m = two (some (m + 100)) none

abbrev login_handler : Handler ℕ
login_handler = func (1 ∷ 11 ∷ []) (21 ∷ 3 ∷ []) login

abbrev pub router : Router ℕ
router = record { handlers = (10, login_handler) ∷ []; type_registry = ("LoginRequest", 10) ∷ [] }

-- A connection that keeps what it is given.
abbrev keep : List Packet → Packet → List Packet × Outcome Error (Unit {0})
keep c p = (c ++ (p ∷ []), ok tt)

abbrev base : BaseMessage
base = record { msg_type = 1001; payload = 7 ∷ []; request_id = 5 }

abbrev request : Packet
request = record {
  version = 1;
  seq_id = 1;
  cmd_id = 3;
  body = 1001 ∷ 5 ∷ 7 ∷ [];
  timestamp = pos 1;
}

request-Routes : Routes types numbers keep registry router 0 request base 7 (21 ∷ 3 ∷ []) login
unfolding lookup get_message_info
request-Routes = record {
  info = login_info;
  typ = 10;
  first = 1;
  second = 11;
  parsed = refl;
  known = refl;
  request = refl;
  message = refl;
  handler = refl;
  interface = refl;
  context = refl;
  fits = refl;
}

abbrev reply_base : BaseMessage
reply_base = reply_to types numbers keep registry base 107 (107 ∷ [])

handle_answer_example :
    let o = handle types numbers keep registry router 9 0 (some []) request in
    let reply = keep [] (new_packet 9 cmd_reply (reply_base.msg_type ∷ 5 ∷ 107 ∷ [])) in
    (o.0 ≡ some reply.0)
    × ((o.1 ≡ ok tt) ↔ (reply.1 ≡ ok tt))
    × (read_base (reply_base.msg_type ∷ 5 ∷ 107 ∷ []) ≡ ok reply_base)
handle_answer_example =
    handle_answer types numbers keep registry router 9 0 request base 7 (21 ∷ 3 ∷ []) login [] 107
      (107 ∷ []) (reply_base.msg_type ∷ 5 ∷ 107 ∷ []) request-Routes refl refl refl refl

abbrev push : Packet
push = record request { cmd_id = 5 }

handle_quiet_example : (handle types numbers keep registry router 9 0 (some []) push).0 ≡ some []
handle_quiet_example =
    handle_quiet types numbers keep registry router 9 0 (some []) push (λ h. omega arith)

abbrev stranger : Packet
stranger = record request { body = 7 ∷ 5 ∷ 7 ∷ [] }

stranger_panics :
    handle types numbers keep registry router 9 0 (some []) stranger ≡ (some [], panic)
unfolding handle handle_request read_request request_type_of lookup get_message_info
stranger_panics = refl

abbrev crash : ℕ → Call ℕ
crash m = panicked

abbrev crashing : Router ℕ
crashing = record router { handlers = (10, func (1 ∷ 11 ∷ []) (3 ∷ []) crash) ∷ [] }

crashing_succeeds :
    handle types numbers keep registry crashing 9 0 (some []) request ≡ (some [], ok tt)
unfolding handle handle_request read_request request_type_of call_handler call_function call_fitting
    finish_call settle lookup get_message_info
crashing_succeeds = refl

register_handler_lem_example :
    let o = register_handler types numbers 7 login_handler new_router in
    ((o.1 ≡ ok tt) ↔ IsHandler types 10 login_handler)
    × Stored types numbers 10 login_handler new_router o
    × (get_msg_type types numbers "LoginRequest" o.0 ≡ some 10)
register_handler_lem_example = register_handler_lem types numbers 7 login_handler new_router

abbrev messages : Map ℕ (ℕ × String)
messages = (1001, (10, "MSG_TYPE_LOGIN_REQ")) ∷ (1002, (20, "MSG_TYPE_LOGIN_RSP")) ∷ []

-- A suffix test for the two names above.
abbrev has_suffix : String → String → Bool
has_suffix name suffix =
    (string_key.beq name "MSG_TYPE_LOGIN_REQ" && string_key.beq suffix "REQ")
    || (string_key.beq name "MSG_TYPE_LOGIN_RSP" && string_key.beq suffix "RSP")

new_message_registry_lem_example :
    (r : MessageRegistry) × (new_message_registry has_suffix messages ≡ ok r)
    × ((n : ℕ) → get_message_info n r ≡ info_or has_suffix n (lookup n messages) none)
    × ((typ : Option ℕ) → get_message_type typ r ≡ 0)
unfolding lookup
new_message_registry_lem_example = new_message_registry_lem has_suffix messages (refl, (refl, tt))
