-- ===== src/Core/Dispatch.antt =====
-- core/router.go: Handle, and what it calls on the way to a handler and back.
use mine_net.Base.{
  ℕ, Option, none, some, List, [], ◌∷◌, Outcome, ok, err, panic, ◌>>=◌, ◌>>◌, ◌==◌, if◌then◌else◌,
}
use mine_net.Base.Map.{nat_key, string_key, lookup}
use mine_net.Network.Errors.{Error}
use mine_net.Network.Packet.{Packet, new_packet, cmd_request, cmd_reply}
use mine_net.Network.Packet.Transform.{Bytes}
use mine_net.Core.Errors.{
  RouterError, bad_base, bad_message, no_handler, handler_nil, wrong_arity, context_mismatch,
  message_mismatch, execution_failed, handler_panic, conn_nil, wrong_outputs, bad_response,
  bad_response_base, no_response, send_failed,
}
use mine_net.Core.Registry.{MessageTypeInfo, MessageRegistry, get_message_type, get_message_info}
use mine_net.Core.Router.{
  Reflection, Protobuf, Call, panicked, one, two, several, Handler, nil_handler, no_function, func,
  Router, check_that, wrap, struct_type,
}

module _ {M : Type 0} (reflect : Reflection) (proto : Protobuf M) where
  -- The values behind the deferred recover: after a panic the zero value of the first result, and
  -- the error if there are two; without results Out(0) panics again.
  unfoldable pub settle : List ℕ → Call M → Outcome RouterError (Call M)
  settle [] panicked = panic
  settle (m ∷ e ∷ []) panicked = ok (two none (some handler_panic))
  settle outs panicked = ok (one none)
  settle outs c = ok c

  -- Up to the call: the arguments have to fit the parameters.
  unfoldable pub call_fitting :
      ℕ → M → ℕ → ℕ → Outcome RouterError (Call M) → Outcome RouterError (Call M)
  call_fitting ctx m c p called = do
    check_that (reflect.implements ctx c) context_mismatch
    check_that (reflect.assignable (proto.type_of m) p) message_mismatch
    called

  -- Implements panics on a type that is no interface.
  unfoldable pub call_function :
      ℕ → M → List ℕ → List ℕ → (M → Call M) → Outcome RouterError (Call M)
  call_function ctx m (c ∷ p ∷ []) outs body =
      if reflect.is_interface c then call_fitting ctx m c p (settle outs (body m)) else panic
  call_function ctx m ins outs body = err wrong_arity

  -- What a response comes to be on the wire.
  unfoldable pub response_data : MessageRegistry → ℕ → M → Outcome RouterError Bytes
  response_data registry request_id m = do
    payload ← wrap bad_response (proto.marshal m)
    wrap bad_response_base (
        proto.marshal_base (record {
          msg_type = get_message_type (some (struct_type reflect proto m)) registry;
          payload = payload;
          request_id = request_id;
        }))

  -- A connection's Send, with the connection behind it.
  module _ {C : Type 0} (send : C → Packet → C × Outcome Error (Unit {0})) where
    unfoldable pub sent : C × Outcome Error (Unit {0}) → Option C × Outcome RouterError (Unit {0})
    sent (c, ok u) = (some c, ok u)
    sent (c, err e) = (some c, err (send_failed e))
    sent (c, panic) = (some c, panic)

    unfoldable pub send_data :
        ℕ → C → Outcome RouterError Bytes → Option C × Outcome RouterError (Unit {0})
    send_data now c (ok bs) = sent (send c (new_packet now cmd_reply bs))
    send_data now c (err e) = (some c, err e)
    send_data now c panic = (some c, panic)

    unfoldable pub send_response :
        MessageRegistry → ℕ → Option C → ℕ → M → Option C × Outcome RouterError (Unit {0})
    send_response registry now none request_id m = (none, err conn_nil)
    send_response registry now (some c) request_id m =
        send_data now c (response_data registry request_id m)

    -- The results of the call. Only a request is answered.
    unfoldable pub finish_call :
        MessageRegistry
        → ℕ
        → Option C
        → ℕ
        → ℕ
        → Outcome RouterError (Call M)
        → Option C × Outcome RouterError (Unit {0})
    finish_call registry now conn request_id cmd (err e) = (conn, err e)
    finish_call registry now conn request_id cmd panic = (conn, panic)
    finish_call registry now conn request_id cmd (ok panicked) = (conn, err execution_failed)
    finish_call registry now conn request_id cmd (ok (one none)) = (conn, ok tt)
    finish_call registry now conn request_id cmd (ok (one (some e))) = (conn, err e)
    finish_call registry now conn request_id cmd (ok (two m (some e))) = (conn, err e)
    finish_call registry now conn request_id cmd (ok (two none none)) = (conn, ok tt)
    finish_call registry now conn request_id cmd (ok (two (some m) none)) =
        let (conn', result) = send_response registry now conn request_id m in
        if cmd == cmd_request then (conn', wrap no_response result) else (conn, ok tt)
    finish_call registry now conn request_id cmd (ok (several n)) =
        (conn, err (if n == 0 then execution_failed else wrong_outputs n))

    unfoldable pub call_handler :
        MessageRegistry
        → ℕ
        → ℕ
        → Option C
        → ℕ
        → Handler M
        → M
        → ℕ
        → Option C × Outcome RouterError (Unit {0})
    call_handler registry now ctx conn request_id (func ins outs body) m cmd =
        finish_call registry now conn request_id cmd (call_function ctx m ins outs body)
    call_handler registry now ctx conn request_id nil_handler m cmd = (conn, err handler_nil)
    call_handler registry now ctx conn request_id no_function m cmd = (conn, panic)

    -- The entry of an unknown number is nil, and its name is asked for; reflect.New panics on nil.
    unfoldable pub request_type_of : Option MessageTypeInfo → Outcome RouterError ℕ
    request_type_of none = panic
    request_type_of (some info) = or_panic info.request_type
      where
        or_panic : Option ℕ → Outcome RouterError ℕ
        or_panic none = panic
        or_panic (some t) = ok t

    abbrev found_handler : Option (Handler M) → Outcome RouterError (Handler M)
    found_handler none = err no_handler
    found_handler (some h) = ok h

    -- What Handle makes of the data: the request's number, its message and the handler.
    unfoldable pub read_request :
        MessageRegistry → Router M → Bytes → Outcome RouterError (ℕ × M × Handler M)
    read_request registry r bs = do
      base ← wrap bad_base (proto.unmarshal_base bs)
      t ← request_type_of (get_message_info base.msg_type registry)
      m ← wrap bad_message (proto.unmarshal t base.payload)
      h ← found_handler (lookup t r.handlers)
      ok (base.request_id, m, h)

    unfoldable pub handle_request :
        MessageRegistry
        → ℕ
        → ℕ
        → Option C
        → ℕ
        → Outcome RouterError (ℕ × M × Handler M)
        → Option C × Outcome RouterError (Unit {0})
    handle_request registry now ctx conn cmd (ok (request_id, m, h)) =
        call_handler registry now ctx conn request_id h m cmd
    handle_request registry now ctx conn cmd (err e) = (conn, err e)
    handle_request registry now ctx conn cmd panic = (conn, panic)

    unfoldable pub handle :
        MessageRegistry
        → Router M
        → ℕ
        → ℕ
        → Option C
        → Packet
        → Option C × Outcome RouterError (Unit {0})
    handle registry r now ctx conn p =
        handle_request registry now ctx conn p.cmd_id (read_request registry r p.body)
