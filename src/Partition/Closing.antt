-- ===== src/Partition/Closing.antt =====
-- The destructor of KafkaPartition (src/KafkaEndpointMP.cpp) from start to end.
use libasynckafkaclient.Prelude.{ℕ, ◌≤◌, ◌<◌, ◌≡◌, refl, ap, ◌∙◌, [], ◌∷◌, ◌++◌, length, All}
use libasynckafkaclient.Outcome.{ok}
use libasynckafkaclient.Os.{Os, closed, slept_ms}
use libasynckafkaclient.Asio.{Asio}
use libasynckafkaclient.Partition.State.{Sys, act}
use libasynckafkaclient.Partition.Calls.{EventsAdded}
use libasynckafkaclient.Partition.Batches.{appended, create_produce_request-ok}
use libasynckafkaclient.Partition.Writing.{sent_all, WritesUpTo, drain-sent_all}
use libasynckafkaclient.Partition.Transfer.{destroy}

module _ (a : Asio) (os : Os) where
  -- If libevent takes every registration and every write() takes the whole of its request, the body
  -- of the destructor returns, with fuel for one round more than there are requests: it has sent
  -- the requests that waited and then those that the queued messages make, each once and in this
  -- order, and it closes the socket last, after 10 milliseconds. No message and no request is left.
  pub destroy-sent_all :
      (m fuel inner : ℕ) (s : Sys)
      → EventsAdded os
      → WritesUpTo m os
      → All (λ e. length e.1 ≤ m) (s.part.dq_write_buffers ++ appended a s.part)
      → length (s.part.dq_write_buffers ++ appended a s.part) < fuel
      → 0 < inner
      → (s' : Sys) × (destroy a os fuel inner s ≡ ok s')
        × (s'.part.q_msgs ≡ [])
        × (s'.part.dq_write_buffers ≡ [])
        × (s'.world.trace
            ≡ closed s.part.sock_fd
              ∷ slept_ms 10
              ∷ sent_all s.part.sock_fd
                  (s.part.dq_write_buffers ++ appended a s.part)
                  s.world.trace)
  unfolding destroy
  destroy-sent_all m fuel inner s adds writes fits h i =
      let (s1, made, part1, trace1) = create_produce_request-ok a os s adds in
      let queue = ap (λ p. p.dq_write_buffers) part1 in
      let (s2, drained, part2, trace2) =
        drain-sent_all a os m fuel inner (s.part.dq_write_buffers ++ appended a s.part) s1 queue
          writes fits h i in
      let same_fd = ap (λ p. p.sock_fd) part1 in
      (
        act (closed s2.part.sock_fd) (act (slept_ms 10) s2),
        rw (made, drained) refl,
        ap (λ p. p.q_msgs) part2 ∙ ap (λ p. p.q_msgs) part1,
        ap (λ p. p.dq_write_buffers) part2,
        rw (part2, trace2, same_fd, trace1) refl,
      )
