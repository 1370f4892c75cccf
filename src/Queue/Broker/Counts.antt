-- ===== src/Queue/Broker/Counts.antt =====
-- The statistics of `MessageQueue`, over any backend, one that raises included.
use competitor_intelligence.Base.{
  ℕ, ◌≡◌, ◌⊎◌, inl, inr, Bool, true, false, Option, none, some, arith, Option-cases,
}
use competitor_intelligence.Dict.{lookup}
use competitor_intelligence.Queue.Message.{QueueMessage}
use competitor_intelligence.Queue.Backend.{QueueBackend}
use competitor_intelligence.Queue.Broker.{
  Broker, Stats, Handler, type_key, bump_consumed, bump_acknowledged, bump_failed, refuse, accept,
  attempt, dispatch, deliver, process_next,
}

module _ (b : QueueBackend) where
  refuse_stats :
      (requeue : Bool) (m : QueueMessage) (q q' : Broker b) (r : Bool)
      → refuse b requeue m q ≡ (some r, q')
      → (r ≡ false) × (q'.stats ≡ bump_failed q.stats)
  unfolding refuse
  refuse_stats requeue m q q' r h = ground arith

  -- one message was counted, and with it one verdict
  abbrev pub Verdict : Stats → Bool → Stats → Type 0
  Verdict t true t' = t' ≡ bump_acknowledged t
  Verdict t false t' = t' ≡ bump_failed t

  dispatch_stats :
      (now : ℕ) (h : Option Handler) (m : QueueMessage) (q q' : Broker b) (r : Bool)
      → dispatch b now h m q ≡ (some r, q')
      → Verdict q.stats r q'.stats
  unfolding dispatch attempt accept refuse
  dispatch_stats now none m q q' r e = ground arith
  dispatch_stats now (some h) m q q' r e = ground arith

  deliver_stats :
      (now : ℕ) (o : Option QueueMessage) (q q' : Broker b) (r : Bool)
      → deliver b now o q ≡ (some r, q')
      → ((r ≡ false) × (q'.stats ≡ q.stats)) ⊎ Verdict (bump_consumed q.stats) r q'.stats
  unfolding deliver
  deliver_stats now none q q' r e = inl (ground arith)
  deliver_stats now (some m) q q' r e =
      let q1 : Broker b = record q { stats = bump_consumed q.stats } in
      inr (dispatch_stats now (lookup m.message_type q.handlers) m q1 q' r e)

  -- A call of process_next that does not raise either found no message and left the statistics
  -- alone, or counted one message as consumed and, by its result, as acknowledged or as failed.
  pub process_next_stats :
      (now : ℕ) (q q' : Broker b) (r : Bool)
      → process_next b now q ≡ (some r, q')
      → ((r ≡ false) × (q'.stats ≡ q.stats)) ⊎ Verdict (bump_consumed q.stats) r q'.stats
  unfolding process_next
  process_next_stats now q q' r e =
      let (x, s) = b.consume now q.backend in
      elim (Option-cases x) [
        | inl broken ↦ absurd (ground arith)
        | inr (o, got) ↦ deliver_stats now o (record q { backend = s }) q' r (ground arith)
      ]
