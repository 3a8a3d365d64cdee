-- ===== src/Network/TcpServer/Broadcast.antt =====
-- network/tcp_net.go, Broadcast: what its loop counts, and whom it leaves alone.
use mine_net.Base.{
  ℕ, ◌+◌, ◌≡◌, Bool, true, false, none, some, [], ◌∷◌, String, arith, length, if◌then◌else◌, refl,
  ◌∙◌, ap, Option, Bool-cases, inl, inr,
}
use mine_net.Base.Map.{Map, string_key, lookup}
use mine_net.Network.Packet.{Packet}
use mine_net.Network.ConnPool.Pool.{Result, values, get_all}
use mine_net.Network.TcpServer.Server.{
  ServerInterface, TcpServer, Sent, counted_send, broadcast_each, broadcast, count_open,
  get_active_connections,
}

module _ {C H S : Type 0} (i : ServerInterface C H S) where
  -- What the loop returns for the entries m.
  pub record IsCounted (m : Map String C) (r : Sent i) : Type 0 where
    pub balance : r.success + r.errors ≡ r.total
    pub open_ones : r.total ≡ count_open i (values m)
    pub size : length r.entries ≡ length m
    pub absent : (k : String) → lookup k m ≡ none → lookup k r.entries ≡ none
    pub closed_ones :
        (k : String) (c : C)
        → lookup k m ≡ some c
        → i.is_closed c ≡ true
        → lookup k r.entries ≡ some c

  counted_send-IsCounted :
      (k : String) (c : C) (o : C × Result) (m : Map String C) (r : Sent i)
      → i.is_closed c ≡ false
      → IsCounted m r
      → IsCounted ((k, c) ∷ m) (counted_send i k o r)
  unfolding count_open lookup
  counted_send-IsCounted k c (d, some e) m r h v = record {
    balance = omega (arith, v.balance);
    open_ones = rw h (omega (arith, v.open_ones));
    size = omega (arith, v.size);
    absent = λ j p. ground (arith, v.absent j);
    closed_ones = λ j x p q. ground (arith, v.closed_ones j x);
  }
  counted_send-IsCounted k c (d, none) m r h v = record {
    balance = omega (arith, v.balance);
    open_ones = rw h (omega (arith, v.open_ones));
    size = omega (arith, v.size);
    absent = λ j p. ground (arith, v.absent j);
    closed_ones = λ j x p q. ground (arith, v.closed_ones j x);
  }

  skip-IsCounted :
      (k : String) (c : C) (m : Map String C) (r : Sent i)
      → i.is_closed c ≡ true
      → IsCounted m r
      → IsCounted ((k, c) ∷ m) (record r { entries = (k, c) ∷ r.entries })
  unfolding count_open lookup
  skip-IsCounted k c m r h v = record {
    balance = v.balance;
    open_ones = rw h (omega (arith, v.open_ones));
    size = omega (arith, v.size);
    absent = λ j p. ground (arith, v.absent j);
    closed_ones = λ j x p q. ground (arith, v.closed_ones j x);
  }

  IsCounted-if :
      (b : Bool) {m : Map String C} {x y : Sent i}
      → (b ≡ true → IsCounted m x)
      → (b ≡ false → IsCounted m y)
      → IsCounted m (if b then x else y)
  IsCounted-if true hx hy = hx refl
  IsCounted-if false hx hy = hy refl

  pub broadcast_each-IsCounted :
      (now : ℕ) (p : Packet) (l : S) (m : Map String C) → IsCounted m (broadcast_each i now p l m)
  unfolding broadcast_each count_open
  broadcast_each-IsCounted now p l [] = record {
    balance = refl;
    open_ones = refl;
    size = refl;
    absent = λ k h. h;
    closed_ones = λ k c h e. h;
  }
  broadcast_each-IsCounted now p l ((k, c) ∷ m) =
      IsCounted-if (i.is_closed c)
        (λ h. skip-IsCounted k c m _ h (broadcast_each-IsCounted now p l m))
        (λ h.
          counted_send-IsCounted k c ((i.send now l c p).1, (i.send now l c p).2) m _ h
            (broadcast_each-IsCounted now p (i.send now l c p).0 m))

  abbrev pub refused : Result → ℕ
  refused none = 0
  refused (some e) = 1

  -- How many of the open connections refuse the packet, when it is sent to one after another.
  unfoldable pub refusals : ℕ → Packet → S → Map String C → ℕ
  refusals now p l [] = 0
  refusals now p l ((k, c) ∷ m) =
      let (l', c', result) = i.send now l c p in
      let rest = refusals now p l' m in
      let others = refusals now p l m in if i.is_closed c then others else refused result + rest

  counted_send-errors :
      (k : String) (o : C × Result) (r : Sent i)
      → (counted_send i k o r).errors ≡ refused o.1 + r.errors
  counted_send-errors k (c, some e) r = omega arith
  counted_send-errors k (c, none) r = omega arith

  counted_send-entries :
      (k : String) (o : C × Result) (r : Sent i)
      → (counted_send i k o r).entries ≡ (k, o.0) ∷ r.entries
  counted_send-entries k (c, some e) r = refl
  counted_send-entries k (c, none) r = refl

  broadcast_each-refusals :
      (now : ℕ) (p : Packet) (l : S) (m : Map String C)
      → (broadcast_each i now p l m).errors ≡ refusals now p l m
  unfolding broadcast_each refusals
  broadcast_each-refusals now p l [] = refl
  broadcast_each-refusals now p l ((k, c) ∷ m) = elim (Bool-cases (i.is_closed c)) [
    | inl e ↦ simp e (broadcast_each-refusals now p l m)
    | inr e ↦
        let (l', c', result) = i.send now l c p in
        simp e (
          counted_send-errors k (c', result) (broadcast_each i now p l' m)
          ∙ ap (λ n. refused result + n) (broadcast_each-refusals now p l' m))
  ]

  -- An entry that is the connection behind its Send of the packet, over some state of the limiter.
  abbrev pub IsOffered : ℕ → Packet → C → Option C → Type 0
  IsOffered now p c entry = (l : S) × (entry ≡ some (i.send now l c p).1)

  broadcast_each-IsOffered :
      (now : ℕ) (p : Packet) (k : String) (c : C) (l : S) (m : Map String C)
      → lookup k m ≡ some c
      → i.is_closed c ≡ false
      → IsOffered now p c (lookup k (broadcast_each i now p l m).entries)
  unfolding broadcast_each lookup
  broadcast_each-IsOffered now p k c l [] e opened = absurd (cc)
  broadcast_each-IsOffered now p k c l ((j, d) ∷ m) e opened =
      elim (Bool-cases (string_key.beq j k)) [
        | inl here ↦
            let same : d ≡ c = ground (arith) in
            let open_one : i.is_closed d ≡ false = ap i.is_closed same ∙ opened in
            let entries =
              counted_send-entries j ((i.send now l d p).1, (i.send now l d p).2)
                (broadcast_each i now p (i.send now l d p).0 m) in
            (l, simp (open_one, entries, here) (ap (λ x. some (i.send now l x p).1) same))
        | inr there ↦
            let later : lookup k m ≡ some c = ground (arith) in
            elim (Bool-cases (i.is_closed d)) [
              | inl shut ↦ simp (shut, there) (broadcast_each-IsOffered now p k c l m later opened)
              | inr open_one ↦
                  let entries =
                    counted_send-entries j ((i.send now l d p).1, (i.send now l d p).2)
                      (broadcast_each i now p (i.send now l d p).0 m) in
                  simp (open_one, entries, there)
                    (broadcast_each-IsOffered now p k c (i.send now l d p).0 m later opened)
            ]
      ]

  -- Broadcast calls Send of the packet once on each open connection: the connection behind that call
  -- is what the pool then has under its id. Each call is a success or an error, and those that refuse
  -- the packet are added to the metric of errors; no connection leaves the pool or enters it, and a
  -- closed one is left as it was.
  pub broadcast_lem :
      (now : ℕ) (p : Packet) (l : S) (s : TcpServer C H)
      → let r = broadcast_each i now p l s.conns.connections in
        let s' = (broadcast i now p l s).1 in
        (r.success + r.errors ≡ get_active_connections i s)
        × (s'.metrics.broadcast_errors
            ≡ s.metrics.broadcast_errors + refusals now p l s.conns.connections)
        × (length s'.conns.connections ≡ length s.conns.connections)
        × ((k : String)
            → lookup k s.conns.connections ≡ none
            → lookup k s'.conns.connections ≡ none)
        × ((k : String) (c : C)
            → lookup k s.conns.connections ≡ some c
            → i.is_closed c ≡ true
            → lookup k s'.conns.connections ≡ some c)
        × ((k : String) (c : C)
            → lookup k s.conns.connections ≡ some c
            → i.is_closed c ≡ false
            → IsOffered now p c (lookup k s'.conns.connections))
  unfolding broadcast get_active_connections get_all
  broadcast_lem now p l s =
      let v = broadcast_each-IsCounted now p l s.conns.connections in
      (
        v.balance ∙ v.open_ones,
        ap (λ n. s.metrics.broadcast_errors + n)
            (broadcast_each-refusals now p l s.conns.connections),
        v.size,
        v.absent,
        v.closed_ones,
        λ k c. broadcast_each-IsOffered now p k c l s.conns.connections,
      )
