-- ===== src/Examples/Numbering.antt =====
-- The messages that examples/producer-00.cpp produces.
use libasynckafkaclient.Prelude.{
  ℕ, zero, suc, ◌+◌, ◌<◌, ◌≡◌, ◌≢◌, refl, sym, ap, ◌∙◌, true, some, List, [], ◌∷◌, get_elem?, set,
  get_elem?-set, get_elem?-lt, length-set, length, arith, if◌then◌else◌, if-true, append-nil, subst,
}
use libasynckafkaclient.Outcome.{Outcome, ok, ok_inj, ◌>>=◌, >>=-ok}
use libasynckafkaclient.Os.{Os, log, woke, msg_queued, app_msg_queued}
use libasynckafkaclient.Asio.{Asio}
use libasynckafkaclient.Partition.State.{KafkaPartition, Sys, act}
use libasynckafkaclient.Partition.Calls.{WritesDone}
use libasynckafkaclient.Partition.Lifecycle.{fire, produce_msg_q_source, notify_produce_msg_q}
use libasynckafkaclient.Client.State.{
  ClientSys, sys_of, with_partitions, back_to, handle_msg_queued_response,
}
use libasynckafkaclient.Client.Produce.{at_partition, producer_produce}
use libasynckafkaclient.Client.Received.{Received, JustWoken, RoutedTo, at_partition-ok}
use libasynckafkaclient.Client.Routing.{
  Chosen, produce_each-RoutedTo, Chosen-RoutedTo, Received-trans, cons≢[],
}
use libasynckafkaclient.Examples.Producer00.{
  Program, message, queue_event, client_msg_queued, on_msg_queued,
}

-- The program produces to the partition `part`, at index i, and is told of its queue.
pub record Ready (i : ℕ) (part : KafkaPartition) (s : ClientSys) : Type 0 where
  pub chosen : Chosen i s
  pub within : s.curr_partition < length s.client.partitions
  pub here : get_elem? s.client.partitions i ≡ some part
  pub notified : part.on_msg_queued ≡ true
  pub bound : s.client.on_msg_queued ≡ true

-- The texts of n messages after number k.
abbrev pub messages_after : ℕ → ℕ → List (List ℕ)
messages_after k zero = []
messages_after k (suc n) = message (k + 1) ∷ messages_after (k + 1) n

-- n events of the partition's message queue.
abbrev pub queue_events : Asio → Os → ℕ → ℕ → Program → Outcome Program
queue_events a os i zero p = ok p
queue_events a os i (suc n) p = queue_event a os i p >>= queue_events a os i n

-- The client after the partition and the client have been told.
abbrev told : ℕ → KafkaPartition → ClientSys → ClientSys
told i part s = record (with_partitions (set s.client.partitions i part) s) {
  world = log app_msg_queued (log msg_queued s.world);
}

told-Ready :
    (i : ℕ) (part : KafkaPartition) (s : ClientSys) → Ready i part s → Ready i part (told i part s)
told-Ready i part s r = record {
  chosen = r.chosen;
  within = omega (arith, length-set s.client.partitions i part, r.within);
  here = get_elem?-set s.client.partitions i part (get_elem?-lt s.client.partitions i part r.here);
  notified = r.notified;
  bound = r.bound;
}

fire-told :
    (a : Asio) (os : Os) (t : Sys)
    → t.part.on_msg_queued ≡ true
    → fire a os produce_msg_q_source t ≡ ok (act msg_queued t)
unfolding fire notify_produce_msg_q
fire-told a os t notified = ap ok (if-true t.part.on_msg_queued (act msg_queued t) t notified)

client_msg_queued-told :
    (os : Os) (s : ClientSys) (p : Program)
    → s.client.on_msg_queued ≡ true
    → client_msg_queued os s p
      ≡ on_msg_queued os (record p { producer = record s { world = log app_msg_queued s.world } })
unfolding client_msg_queued handle_msg_queued_response
client_msg_queued-told os s p bound =
    if-true s.client.on_msg_queued _ _ bound
    ∙ ap (λ c. on_msg_queued os (record p { producer = c }))
        (if-true s.client.on_msg_queued (record s { world = log app_msg_queued s.world }) s bound)

queue_event-told :
    (a : Asio) (os : Os) (i : ℕ) (part : KafkaPartition) (p : Program)
    → Ready i part p.producer
    → queue_event a os i p ≡ on_msg_queued os (record p { producer = told i part p.producer })
unfolding queue_event
queue_event-told a os i part p r =
    let s = p.producer in
    let t = sys_of part s in
    let s1 = with_partitions (set s.client.partitions i part) (back_to s (act msg_queued t)) in
    let after : ClientSys → Outcome Program = λ s2.
      if part.on_msg_queued then client_msg_queued os s2 p else ok (record p { producer = s2 }) in
    let told_first : at_partition i (fire a os produce_msg_q_source) s ≡ ok s1 =
      at_partition-ok i (fire a os produce_msg_q_source) s part (act msg_queued t) r.here
        (fire-told a os t r.notified) in
    let chosen : queue_event a os i p
        ≡ (at_partition i (fire a os produce_msg_q_source) s >>= after) =
      rw (queue_event, r.here) refl in
    chosen
    ∙ ap (λ m. m >>= after) told_first
    ∙ if-true part.on_msg_queued (client_msg_queued os s1 p) (ok (record p { producer = s1 }))
        r.notified
    ∙ client_msg_queued-told os s1 p r.bound

routed-Ready :
    (i : ℕ) (msg : List ℕ) (part part' : KafkaPartition) (s s' : ClientSys)
    → Ready i part s
    → RoutedTo i (msg ∷ []) part s s'
    → get_elem? s'.client.partitions i ≡ some part'
    → Received (msg ∷ []) part part'
    → Ready i part' s'
routed-Ready i msg part part' s s' r routed here received = record {
  chosen = Chosen-RoutedTo i (msg ∷ []) part s s' routed r.chosen;
  within = omega (arith, routed.same_cursor, routed.same_count, r.within);
  here = here;
  notified = ap (λ (q : KafkaPartition). q.on_msg_queued) received ∙ r.notified;
  bound = routed.same_callback ∙ r.bound;
}

-- One event queues the message with the next number and wakes the event that it came from.
queue_event-numbered :
    (a : Asio) (os : Os) (i : ℕ) (part : KafkaPartition) (p : Program)
    → WritesDone os
    → Ready i part p.producer
    → (p' : Program) × (queue_event a os i p ≡ ok p')
      × (p'.num_mesgs ≡ p.num_mesgs + 1)
      × ((part' : KafkaPartition) × Ready i part' p'.producer
          × Received (message (p.num_mesgs + 1) ∷ []) part part')
      × JustWoken part.produce_msg_q_event p'.producer.world
unfolding on_msg_queued
queue_event-numbered a os i part p writes r =
    let s = told i part p.producer in
    let ready = told-Ready i part p.producer r in
    let msg = message (p.num_mesgs + 1) in
    let (s', e, routed) =
      produce_each-RoutedTo os i (msg ∷ []) s part writes ready.chosen ready.within ready.here in
    let (part', here, received) = routed.receiver in
    (
      record { producer = s'; num_mesgs = p.num_mesgs + 1 },
      queue_event-told a os i part p r ∙ rw (sym (>>=-ok (producer_produce os msg s)) ∙ e) refl,
      refl,
      (part', routed-Ready i msg part part' s s' ready routed here received, received),
      routed.woken cons≢[],
    )

-- The wake-up of the first event is the last one if there are no more.
last_event :
    (a : Asio) (os : Os) (i n : ℕ) (msg : List ℕ) (part part1 : KafkaPartition) (p1 p2 : Program)
    → queue_events a os i n p1 ≡ ok p2
    → JustWoken part.produce_msg_q_event p1.producer.world
    → Received (msg ∷ []) part part1
    → (n ≢ 0 → JustWoken part1.produce_msg_q_event p2.producer.world)
    → JustWoken part.produce_msg_q_event p2.producer.world
last_event a os i zero msg part part1 p1 p2 e w q later =
    subst (λ (p : Program). JustWoken part.produce_msg_q_event p.producer.world) (ok_inj e) w
last_event a os i (suc n) msg part part1 p1 p2 e w q later =
    let (rest, h) = later (λ z. ground arith) in
    (rest, h ∙ ap (λ (x : KafkaPartition). woke x.produce_msg_q_event.wakeup_fd ∷ rest) q)

-- If every wake-up is written and the program produces to a partition of which it is told, n events of
-- the partition's message queue queue n messages there, numbered on from the last, in order, and
-- change nothing else of the partition but its counter; each leaves the event of the queue just woken,
-- so that the next one follows.
pub queue_events-numbered :
    (a : Asio) (os : Os) (i n : ℕ) (part : KafkaPartition) (p : Program)
    → WritesDone os
    → Ready i part p.producer
    → (p' : Program) × (queue_events a os i n p ≡ ok p')
      × (p'.num_mesgs ≡ p.num_mesgs + n)
      × ((part' : KafkaPartition) × Ready i part' p'.producer
          × Received (messages_after p.num_mesgs n) part part')
      × (n ≢ 0 → JustWoken part.produce_msg_q_event p'.producer.world)
queue_events-numbered a os i zero part p writes r = (
  p,
  refl,
  omega arith,
  (
    part,
    r,
    ap (λ l. record part { q_msgs = l; msg_cnt = part.msg_cnt }) (sym (append-nil part.q_msgs)),
  ),
  λ some_event. absurd (some_event refl),
)
queue_events-numbered a os i (suc n) part p writes r =
    let (p1, e1, n1, (part1, r1, q1), w1) = queue_event-numbered a os i part p writes r in
    let (p2, e2, n2, (part2, r2, q2), w2) = queue_events-numbered a os i n part1 p1 writes r1 in
    (
      p2,
      rw e1 e2,
      omega (arith, n1, n2),
      (
        part2,
        r2,
        Received-trans (message (p.num_mesgs + 1) ∷ []) (messages_after (p.num_mesgs + 1) n) part
            part1 part2 q1 (subst (λ k. Received (messages_after k n) part1 part2) n1 q2),
      ),
      λ some_event. last_event a os i n (message (p.num_mesgs + 1)) part part1 p1 p2 e2 w1 q1 w2,
    )
