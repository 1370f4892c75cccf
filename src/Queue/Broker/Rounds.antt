-- ===== src/Queue/Broker/Rounds.antt =====
-- `MessageQueue` over a backend that keeps the contract: what one round does to the messages.
use competitor_intelligence.Base.{
  ℕ, ◌≡◌, ◌+◌, refl, Bool, true, false, Option, none, some, String, List, [], ◌∷◌, ◌++◌, append-nil,
  sym, subst,
}
use competitor_intelligence.Dict.{Dict, string_key, lookup, insert, erase}
use competitor_intelligence.Dict.Laws.{erase-insert_self, lookup-insert_self}
use competitor_intelligence.Queue.Message.{QueueMessage, MessageType}
use competitor_intelligence.Queue.Backend.{QueueBackend, View, IsFifo, start, returned}
use competitor_intelligence.Queue.Broker.{
  Broker, Handler, Outcome, type_key, success, failure, raised, refuse, accept, attempt, dispatch,
  deliver, process_next, bump_consumed,
}

-- The result of a round for a message, and what of the message goes back to the queue.
abbrev pub verdict : Option Handler → QueueMessage → Bool
verdict none m = false
verdict (some h) m = elim (h m) [ success ↦ true | _ ↦ false ]

abbrev pub left_over : Option Handler → QueueMessage → List QueueMessage
left_over none m = returned false m
left_over (some h) m = elim (h m) [ success ↦ [] | _ ↦ returned true m ]

module _ (b : QueueBackend) (v : View b) (law : IsFifo b v) where
  -- Where a broker stands: live, with these messages waiting and in flight, and these handlers.
  pub record At (w : List QueueMessage) (fl : Dict String QueueMessage)
      (hs : Dict MessageType Handler) (q : Broker b) : Type 0 where
    pub live : v.IsLive q.backend
    pub waits : v.waiting q.backend ≡ w
    pub flies : v.in_flight q.backend ≡ fl
    pub handled : q.handlers ≡ hs

  refuse-At :
      {w : List QueueMessage} {fl : Dict String QueueMessage} {hs : Dict MessageType Handler}
      (requeue : Bool) (m : QueueMessage) (q : Broker b)
      → At w fl hs q
      → lookup m.message_id fl ≡ some m
      → (q' : Broker b) × (refuse b requeue m q ≡ (some false, q'))
        × At (w ++ returned requeue m) (erase m.message_id fl) hs q'
  unfolding refuse
  refuse-At requeue m q a known =
      let (s, e, live, waits, flies) =
        law.nack_known m.message_id requeue m q.backend a.live (rw a.flies known) in
      (
        record q { backend = s; stats = record (q.stats) { failed = q.stats.failed + 1 } },
        rw e,
        record {
          live = live;
          waits = cc (a.waits, waits);
          flies = cc (a.flies, flies);
          handled = a.handled;
        },
      )

  accept-At :
      {w : List QueueMessage} {fl : Dict String QueueMessage} {hs : Dict MessageType Handler}
      (now : ℕ) (m : QueueMessage) (q : Broker b)
      → At w fl hs q
      → lookup m.message_id fl ≡ some m
      → (q' : Broker b) × (accept b now m q ≡ (some true, q')) × At w (erase m.message_id fl) hs q'
  unfolding accept
  accept-At now m q a known =
      let (s, e, live, waits, flies) =
        law.ack_known now m.message_id m q.backend a.live (rw a.flies known) in
      (
        record q {
          backend = s;
          stats = record (q.stats) { acknowledged = q.stats.acknowledged + 1 };
        },
        rw e,
        record {
          live = live;
          waits = cc (a.waits, waits);
          flies = cc (a.flies, flies);
          handled = a.handled;
        },
      )

  attempt-At :
      {w : List QueueMessage} {fl : Dict String QueueMessage} {hs : Dict MessageType Handler}
      (now : ℕ) (h : Handler) (m : QueueMessage) (o : Outcome) (q : Broker b)
      → h m ≡ o
      → At w fl hs q
      → lookup m.message_id fl ≡ some m
      → (q' : Broker b) × (dispatch b now (some h) m q ≡ (some (verdict (some h) m), q'))
        × At (w ++ left_over (some h) m) (erase m.message_id fl) hs q'
  unfolding dispatch attempt
  attempt-At {w} now h m success q e a known =
      let (q', r, a') = accept-At now m q a known in rw (e, append-nil) (q', rw r, a')
  attempt-At now h m failure q e a known =
      let (q', r, a') = refuse-At true m q a known in rw e (q', rw r, a')
  attempt-At now h m raised q e a known =
      let (q', r, a') = refuse-At true m q a known in rw e (q', rw r, a')

  dispatch-At :
      {w : List QueueMessage} {fl : Dict String QueueMessage} {hs : Dict MessageType Handler}
      (now : ℕ) (h : Option Handler) (m : QueueMessage) (q : Broker b)
      → At w fl hs q
      → lookup m.message_id fl ≡ some m
      → (q' : Broker b) × (dispatch b now h m q ≡ (some (verdict h m), q'))
        × At (w ++ left_over h m) (erase m.message_id fl) hs q'
  unfolding dispatch
  dispatch-At now none m q a known = refuse-At false m q a known
  dispatch-At now (some h) m q a known = attempt-At now h m (h m) q refl a known

  -- No message: the round returns `False` and changes nothing.
  pub process_next_empty :
      {fl : Dict String QueueMessage} {hs : Dict MessageType Handler} (now : ℕ) (q : Broker b)
      → At [] fl hs q
      → process_next b now q ≡ (some false, q)
  unfolding process_next deliver
  process_next_empty now q a = rw (law.consume_empty now q.backend a.live a.waits)

  -- From a broker with waiting messages, a round takes the oldest one, its handler decides, and
  -- what is left of it goes to the end of the queue; nothing of it stays in flight.
  pub process_next_head :
      {rest : List QueueMessage} {fl : Dict String QueueMessage} {hs : Dict MessageType Handler}
      (now : ℕ) (m : QueueMessage) (q : Broker b)
      → At (m ∷ rest) fl hs q
      → (q' : Broker b) × (process_next b now q
          ≡ (some (verdict (lookup m.message_type hs) (start now m)), q'))
        × At
            (rest ++ left_over (lookup m.message_type hs) (start now m))
            (erase m.message_id fl)
            hs
            q'
  unfolding process_next deliver start
  process_next_head {rest} {fl} {hs} now m q a =
      let (s, e, live, waits, flies) = law.consume_head now m rest q.backend a.live a.waits in
      let m1 : QueueMessage = start now m in
      let q1 : Broker b = record q { backend = s; stats = bump_consumed q.stats } in
      let a1 : At rest (insert m.message_id m1 fl) hs q1 = record {
        live = live;
        waits = waits;
        flies = cc (flies, a.flies);
        handled = a.handled;
      } in
      let h : Option Handler = lookup m.message_type hs in
      let (q', r, a') = dispatch-At now h m1 q1 a1 (lookup-insert_self m.message_id m1 fl) in
      (
        q',
        rw e (
            subst (λ t. dispatch b now (lookup m.message_type t) m1 q1 ≡ (some (verdict h m1), q'))
              (sym a.handled) r),
        subst (λ t. At (rest ++ left_over h m1) t hs q') (erase-insert_self m.message_id m1 fl) a',
      )
