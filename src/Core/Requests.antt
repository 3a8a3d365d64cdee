-- ===== src/Core/Requests.antt =====
-- core/router.go, Handle: what becomes of a packet.
use mine_net.Base.{
  ℕ, ◌≡◌, ◌≢◌, ◌↔◌, refl, true, false, Option, none, some, List, [], ◌∷◌, Outcome, ok, err, panic,
  ◌==◌, ==_iff, arith,
}
use mine_net.Base.Map.{nat_key, lookup}
use mine_net.Network.Errors.{Error}
use mine_net.Network.Packet.{Packet, new_packet, cmd_request, cmd_reply}
use mine_net.Network.Packet.Transform.{Bytes}
use mine_net.Core.Errors.{RouterError, no_response}
use mine_net.Core.Registry.{MessageTypeInfo, MessageRegistry, get_message_info, get_message_type}
use mine_net.Core.Router.{
  BaseMessage, Reflection, Protobuf, Call, panicked, one, two, several, Handler, nil_handler,
  no_function, func, Router, wrap, struct_type,
}
use mine_net.Core.Dispatch.{
  settle, call_fitting, call_function, response_data, sent, send_data, send_response, finish_call,
  call_handler, request_type_of, read_request, handle_request, handle,
}

module _ {M C : Type 0} (reflect : Reflection) (proto : Protobuf M)
    (send : C → Packet → C × Outcome Error (Unit {0})) where
  -- A packet with a message that the registry knows and the router has a handler for, whose
  -- parameters the context and the message fit.
  pub record Routes (registry : MessageRegistry) (r : Router M) (ctx : ℕ) (p : Packet)
      (base : BaseMessage) (m : M) (outs : List ℕ) (body : M → Call M) : Type 0 where
    pub info : MessageTypeInfo
    pub typ : ℕ
    pub first : ℕ
    pub second : ℕ
    pub parsed : proto.unmarshal_base p.body ≡ ok base
    pub known : get_message_info base.msg_type registry ≡ some info
    pub request : info.request_type ≡ some typ
    pub message : proto.unmarshal typ base.payload ≡ ok m
    pub handler : lookup typ r.handlers ≡ some (func (first ∷ second ∷ []) outs body)
    pub interface : reflect.is_interface first ≡ true
    pub context : reflect.implements ctx first ≡ true
    pub fits : reflect.assignable (proto.type_of m) second ≡ true

  module _ (registry : MessageRegistry) (r : Router M) (now ctx : ℕ) (p : Packet)
      (base : BaseMessage) (m : M) (outs : List ℕ) (body : M → Call M)
      (v : Routes registry r ctx p base m outs body) where
    read_request-Routes :
        read_request reflect proto send registry r p.body
        ≡ ok (base.request_id, m, func (v.first ∷ v.second ∷ []) outs body)
    unfolding read_request request_type_of
    read_request-Routes = simp (v.parsed, v.known, v.request, v.message, v.handler)

    call_function-Routes :
        call_function reflect proto ctx m (v.first ∷ v.second ∷ []) outs body
        ≡ settle reflect proto outs (body m)
    unfolding call_function call_fitting
    call_function-Routes = simp (v.interface, v.context, v.fits)

    handle-Routes :
        (conn : Option C)
        → handle reflect proto send registry r now ctx conn p
          ≡ finish_call reflect proto send registry now conn base.request_id p.cmd_id
              (settle reflect proto outs (body m))
    unfolding handle handle_request call_handler
    handle-Routes conn = rw (read_request-Routes, call_function-Routes) refl

  settle_two :
      (outs : List ℕ) (m : Option M) (e : Option RouterError)
      → settle reflect proto outs (two m e) ≡ ok (two m e)
  unfolding settle
  settle_two [] m e = refl
  settle_two (x ∷ []) m e = refl
  settle_two (x ∷ y ∷ []) m e = refl
  settle_two (x ∷ y ∷ z ∷ outs) m e = refl

  -- The base message of a reply.
  abbrev pub reply_to : MessageRegistry → BaseMessage → M → Bytes → BaseMessage
  reply_to registry base answer payload = record {
    msg_type = get_message_type (some (struct_type reflect proto answer)) registry;
    payload = payload;
    request_id = base.request_id;
  }

  -- What Handle makes of what the connection's Send answers.
  answered :
      (o : C × Outcome Error (Unit {0}))
      → let (c', result) = sent reflect proto send o in
        (c' ≡ some o.0) × ((wrap no_response result ≡ ok tt) ↔ (o.1 ≡ ok tt))
  unfolding sent
  answered (c, ok u) = (refl, (λ h. refl, λ h. refl))
  answered (c, err e) = (refl, (λ h. cc, λ h. cc))
  answered (c, panic) = (refl, (λ h. cc, λ h. cc))

  -- A request that routes to a handler which answers with a message that can be marshalled: exactly one packet is sent on the connection, a
  -- reply with the request's number and the marshalled answer. Handle succeeds if Send does.
  pub handle_answer :
      (registry : MessageRegistry) (r : Router M) (now ctx : ℕ) (p : Packet) (base : BaseMessage)
      (m : M) (outs : List ℕ) (body : M → Call M) (c : C) (answer : M) (payload bs : Bytes)
      → Routes registry r ctx p base m outs body
      → p.cmd_id ≡ cmd_request
      → body m ≡ two (some answer) none
      → proto.marshal answer ≡ ok payload
      → proto.marshal_base (reply_to registry base answer payload) ≡ ok bs
      → let o = handle reflect proto send registry r now ctx (some c) p in
        let reply = send c (new_packet now cmd_reply bs) in
        (o.0 ≡ some reply.0)
        × ((o.1 ≡ ok tt) ↔ (reply.1 ≡ ok tt))
        × (proto.unmarshal_base bs ≡ ok (reply_to registry base answer payload))
  unfolding finish_call send_response response_data send_data
  handle_answer registry r now ctx p base m outs body c answer payload bs v cmd called out framed =
      let (conn, result) = answered (send c (new_packet now cmd_reply bs)) in
      let back = proto.unmarshal_base-marshal_base _ bs framed in
      rw
        (
          handle-Routes registry r now ctx p base m outs body v (some c),
          called,
          settle_two outs (some answer) none,
          cmd,
          out,
          framed,
        )
        (conn, result, back)

  -- Of a packet that is no request, nothing is sent, whatever it holds.
  finish_call-quiet :
      (registry : MessageRegistry) (now : ℕ) (conn : Option C) (request_id cmd : ℕ)
      (o : Outcome RouterError (Call M))
      → (cmd == cmd_request) ≡ false
      → (finish_call reflect proto send registry now conn request_id cmd o).0 ≡ conn
  unfolding finish_call
  finish_call-quiet registry now conn request_id cmd (err e) h = refl
  finish_call-quiet registry now conn request_id cmd panic h = refl
  finish_call-quiet registry now conn request_id cmd (ok panicked) h = refl
  finish_call-quiet registry now conn request_id cmd (ok (one none)) h = refl
  finish_call-quiet registry now conn request_id cmd (ok (one (some e))) h = refl
  finish_call-quiet registry now conn request_id cmd (ok (two none none)) h = refl
  finish_call-quiet registry now conn request_id cmd (ok (two (some m) none)) h = simp h
  finish_call-quiet registry now conn request_id cmd (ok (two m (some e))) h = refl
  finish_call-quiet registry now conn request_id cmd (ok (several n)) h = refl

  handle_request-quiet :
      (registry : MessageRegistry) (now ctx : ℕ) (conn : Option C) (cmd : ℕ)
      (o : Outcome RouterError (ℕ × M × Handler M))
      → (cmd == cmd_request) ≡ false
      → (handle_request reflect proto send registry now ctx conn cmd o).0 ≡ conn
  unfolding handle_request call_handler
  handle_request-quiet registry now ctx conn cmd (err e) h = refl
  handle_request-quiet registry now ctx conn cmd panic h = refl
  handle_request-quiet registry now ctx conn cmd (ok (n, m, nil_handler)) h = refl
  handle_request-quiet registry now ctx conn cmd (ok (n, m, no_function)) h = refl
  handle_request-quiet registry now ctx conn cmd (ok (n, m, func ins outs body)) h =
      finish_call-quiet registry now conn n cmd _ h

  -- Handle sends nothing for a packet that is no request, whatever it holds and whatever the handler
  -- answers.
  pub handle_quiet :
      (registry : MessageRegistry) (r : Router M) (now ctx : ℕ) (conn : Option C) (p : Packet)
      → p.cmd_id ≢ cmd_request
      → (handle reflect proto send registry r now ctx conn p).0 ≡ conn
  unfolding handle
  handle_quiet registry r now ctx conn p other =
      handle_request-quiet registry now ctx conn p.cmd_id _
        (ground (arith, ==_iff p.cmd_id cmd_request))

  -- A packet that routes to a handler with an error as its only result, which panics: the panic is
  -- lost, and Handle succeeds.
  handle_panicked :
      (registry : MessageRegistry) (r : Router M) (now ctx : ℕ) (conn : Option C) (p : Packet)
      (base : BaseMessage) (m : M) (body : M → Call M) (x : ℕ)
      → Routes registry r ctx p base m (x ∷ []) body
      → body m ≡ panicked
      → handle reflect proto send registry r now ctx conn p ≡ (conn, ok tt)
  unfolding finish_call settle
  handle_panicked registry r now ctx conn p base m body x v called =
      rw (handle-Routes registry r now ctx p base m (x ∷ []) body v conn, called) refl

  -- A message number that the registry does not have makes Handle panic.
  handle_unknown :
      (registry : MessageRegistry) (r : Router M) (now ctx : ℕ) (conn : Option C) (p : Packet)
      (base : BaseMessage)
      → proto.unmarshal_base p.body ≡ ok base
      → get_message_info base.msg_type registry ≡ none
      → handle reflect proto send registry r now ctx conn p ≡ (conn, panic)
  unfolding handle handle_request read_request request_type_of
  handle_unknown registry r now ctx conn p base parsed unknown = simp (parsed, unknown)
