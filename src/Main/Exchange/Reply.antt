-- ===== src/Main/Exchange/Reply.antt =====
-- The reply to a request comes back to the client's handler.
use mine_net.Base.{
  ℕ, ◌≤◌, ◌≡◌, refl, ap, ◌∙◌, Bool, true, none, some, List, [], ◌∷◌, ◌++◌, Outcome, ok, length,
  arith,
}
use mine_net.Base.Map.{nat_key, lookup}
use mine_net.Network.Errors.{Error}
use mine_net.Network.Packet.{Packet, new_packet, encode, cmd_request, cmd_reply, max_packet_size}
use mine_net.Network.Packet.Transform.{Bytes, Transforms, PacketCodec}
use mine_net.Network.Packet.RoundTrip.{IsWire, IsPeer, on_wire, numbered}
use mine_net.Network.RateLimiter.{LimiterLib, is_allowed}
use mine_net.Network.Heartbeat.{Json}
use mine_net.Network.Connection.State.{Connection, update_last_active}
use mine_net.Network.Connection.Send.{next_seq, write_step}
use mine_net.Network.Connection.Receive.{Node, read_step}
use mine_net.Network.Connection.Drain.{wrote}
use mine_net.Core.Registry.{MessageRegistry}
use mine_net.Core.Router.{BaseMessage, Reflection, Protobuf, Call, two, Router}
use mine_net.Core.Requests.{Routes, reply_to, handle_answer}
use mine_net.Main.Exchange.{Line, send_on, run_handler, run_handlers, IsOpen, exchange}
use mine_net.Main.Exchange.Rounds.{
  received, queued, read_step-handled, send_empty, written-IsOpen, IsPeer-back,
}

module _ {M : Type 0} (V : Type 0) (lib : LimiterLib) (t : Transforms) (json : Json)
    (reflect : Reflection) (proto : Protobuf M) (registry : MessageRegistry) (pick : Bool)
    (now ctx : ℕ) where
  -- The server's end of Send, and its replies.
  abbrev pub sender :
      Line lib (Router M) V → Packet → Line lib (Router M) V × Outcome Error (Unit {0})
  sender = send_on lib now pick

  abbrev pub reply_base : BaseMessage → M → Bytes → BaseMessage
  reply_base = reply_to reflect proto sender registry

  -- Between the read of a request and the write of its reply.
  run_handlers-answer :
      (n : Node lib (Router M) V) (router : Router M) (p : Packet) (base : BaseMessage) (m : M)
      (outs : List ℕ) (body : M → Call M) (answer : M) (payload bs : Bytes)
      → IsOpen n.conn []
      → Routes reflect proto sender registry router ctx p base m outs body
      → p.cmd_id ≡ cmd_request
      → body m ≡ two (some answer) none
      → proto.marshal answer ≡ ok payload
      → proto.marshal_base (reply_base base answer payload) ≡ ok bs
      → (is_allowed lib now n.limiter).0 ≡ true
      → run_handlers lib reflect proto registry now pick ctx ((router, p) ∷ []) n ≡ record n {
        limiter = (is_allowed lib now n.limiter).1;
        conn = queued lib now (new_packet now cmd_reply bs) n.conn;
      }
  unfolding run_handlers run_handler
  run_handlers-answer n router p base m outs body answer payload bs o v cmd called out framed
        allowed =
      let handled =
        handle_answer reflect proto sender registry router now ctx p base m outs body
          (n.limiter, n.conn) answer payload bs v cmd called out framed in
      let sent =
        send_empty lib now pick n.limiter n.conn (new_packet now cmd_reply bs) o.flag o.channel
          o.queue allowed in
      rw (handled.0, sent) refl

  asks : Node lib (Router M) V → Bytes → Node lib (Router M) V
  asks server bs = read_step lib t json now pick (record server { input = on_wire bs })

  answers : Node lib (Router M) V → Node lib (Router M) V
  answers n = run_handlers lib reflect proto registry now pick ctx n.dispatched n

  writes : Node lib (Router M) V → Bytes
  writes n = (write_step t pick none n.conn).0.written

  -- What the server has written when the request has been read, handled and answered.
  server_writes :
      (c : PacketCodec) (server : Node lib (Router M) V) (req : Packet) (router : Router M)
      (base : BaseMessage) (m : M) (outs : List ℕ) (body : M → Call M) (answer : M)
      (payload bs : Bytes) {sent back : Bytes}
      → IsOpen server.conn []
      → server.dispatched ≡ []
      → IsPeer c server.conn.codec
      → IsWire req
      → req.cmd_id ≡ cmd_request
      → (encode t c req).2 ≡ ok sent
      → length sent ≤ max_packet_size
      → lookup req.cmd_id server.conn.handlers ≡ some router
      → Routes reflect proto sender registry router ctx (numbered c req) base m outs body
      → body m ≡ two (some answer) none
      → proto.marshal answer ≡ ok payload
      → proto.marshal_base (reply_base base answer payload) ≡ ok bs
      → (is_allowed lib now server.limiter).0 ≡ true
      → (encode t server.conn.codec (new_packet now cmd_reply bs)).2 ≡ ok back
      → writes (answers (asks server sent)) ≡ back
  unfolding asks answers writes encode update_last_active
  server_writes c server req router base m outs body answer payload bs {sent} {back} o none_yet peer
        wire cmd e fits found v called out framed allowed e' =
      let q = numbered c req in
      let asked =
        read_step-handled lib t json pick now server c req router peer wire (omega (arith, cmd)) e
          fits o.channel found in
      let n : Node lib (Router M) V = record server {
        input = [];
        conn = received lib now q server.conn;
        dispatched = (router, q) ∷ [];
      } in
      let asked' : asks server sent ≡ n =
        asked ∙ ap (λ ds. record n { dispatched = ds ++ ((router, q) ∷ []) }) none_yet in
      let open_n : IsOpen n.conn [] = record {
        flag = o.flag;
        channel = o.channel;
        written = o.written;
        queue = o.queue;
      } in
      let open_n : IsOpen n.conn [] = record {
        flag = o.flag;
        channel = o.channel;
        written = o.written;
        queue = o.queue;
      } in
      let handled =
        run_handlers-answer n router q base m outs body answer payload bs open_n v cmd called out
          framed allowed in
      let reply = new_packet now cmd_reply bs in
      let numbered_reply : Packet = record reply { seq_id = next_seq n.conn } in
      ap (λ (k : Node lib (Router M) V). writes (answers k)) asked'
      ∙ ap writes handled
      ∙ (written-IsOpen t pick (queued lib now reply n.conn) numbered_reply o.channel o.written
          (ap (λ (ps : List Packet). ps ++ (numbered_reply ∷ [])) o.queue) e').1

  -- A client with one request in its queue, and a server that has a router for requests, both open,
  -- with the same codec settings and nothing on the wire yet; the request and its reply are in the
  -- wire's ranges and framed within the limit; the request routes to a handler which answers with a
  -- message that can be marshalled; the server's limiter allows the reply. After a round each of the
  -- client's writeLoop, the server's readLoop, the handler's goroutine, the server's writeLoop and
  -- the client's readLoop, the client's handler of replies has been called once more, with a packet
  -- that holds the answer and the request's own number.
  pub reply_lem :
      {H : Type 0} (client : Node lib H V) (server : Node lib (Router M) V) (req : Packet)
      (router : Router M) (h : H) (base : BaseMessage) (m : M) (outs : List ℕ) (body : M → Call M)
      (answer : M) (payload bs : Bytes) {sent back : Bytes}
      → IsOpen client.conn (req ∷ [])
      → IsOpen server.conn []
      → server.dispatched ≡ []
      → IsPeer client.conn.codec server.conn.codec
      → IsWire req
      → req.cmd_id ≡ cmd_request
      → (encode t client.conn.codec req).2 ≡ ok sent
      → length sent ≤ max_packet_size
      → lookup req.cmd_id server.conn.handlers ≡ some router
      → lookup cmd_reply client.conn.handlers ≡ some h
      → Routes reflect proto sender registry router ctx
          (numbered client.conn.codec req)
          base
          m
          outs
          body
      → body m ≡ two (some answer) none
      → proto.marshal answer ≡ ok payload
      → proto.marshal_base (reply_base base answer payload) ≡ ok bs
      → (is_allowed lib now server.limiter).0 ≡ true
      → IsWire (new_packet now cmd_reply bs)
      → (encode t server.conn.codec (new_packet now cmd_reply bs)).2 ≡ ok back
      → length back ≤ max_packet_size
      → (reply : Packet) × ((exchange lib t json reflect proto registry pick now ctx client
            server).0.dispatched
          ≡ client.dispatched ++ ((h, reply) ∷ []))
        × (reply.cmd_id ≡ cmd_reply)
        × (proto.unmarshal_base reply.body ≡ ok (reply_base base answer payload))
  unfolding exchange asks answers writes new_packet
  reply_lem {H} client server req router h base m outs body answer payload bs {sent} {back} o o'
        none_yet peer wire cmd e fits found found' v called out framed allowed wire' e' fits' =
      let c = client.conn in
      let (first, bytes) = written-IsOpen t pick c req o.channel o.written o.queue e in
      let written =
        ap (λ (bs : Bytes). writes (answers (asks server bs))) bytes
        ∙ server_writes c.codec server req router base m outs body answer payload bs o' none_yet
            peer wire cmd e fits found v called out framed allowed e' in
      let reads : Connection H V → Bytes → Node lib H V =
        λ d bs. read_step lib t json now pick (record client { conn = d; input = on_wire bs }) in
      let reply = new_packet now cmd_reply bs in
      let read =
        read_step-handled lib t json pick now (record client { conn = wrote t pick c req [] sent })
          server.conn.codec reply h (IsPeer-back t c.codec server.conn.codec req peer) wire'
          (omega arith) e' fits' o.channel found' in
      (
        numbered server.conn.codec reply,
        ap (λ (n : Node lib H V). n.dispatched)
            (ap
                (λ (d : Connection H V).
                  reads d
                    (writes (answers (asks server (write_step t pick none client.conn).0.written))))
                first
              ∙ ap (reads (wrote t pick c req [] sent)) written
              ∙ read),
        refl,
        proto.unmarshal_base-marshal_base (reply_base base answer payload) bs framed,
      )
