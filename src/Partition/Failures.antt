-- ===== src/Partition/Failures.antt =====
-- What the error paths of src/KafkaEndpointMP.cpp do: handleKafkaError, the resending of a produce
-- request, the reconnection without another broker, and the leader's port.
use libasynckafkaclient.Prelude.{
  ℕ, ◌^◌, ◌<◌, ◌≡◌, ◌≢◌, ◌⊎◌, ◌↔◌, refl, false, not, none, List, [], ◌∷◌, arith, str_eq_refl, All,
  Bool-cases, inl, inr, find_first, leb,
}
use libasynckafkaclient.Prelude.Int.{ℤ, pos, ◌==ℤ◌, ◌≤ℤ◌, ==ℤ-refl, ==ℤ→≡}
use libasynckafkaclient.Config.{
  Str, KafkaBroker, KafkaFetchOffset, from_end, from_stored, from_beginning,
}
use libasynckafkaclient.Outcome.{Outcome, ok, undefined}
use libasynckafkaclient.Os.{Os}
use libasynckafkaclient.Asio.{Asio, MetadataBroker, api_key_produce}
use libasynckafkaclient.Partition.State.{Sys, with_part, drop_socket}
use libasynckafkaclient.Partition.Requests.{push_back}
use libasynckafkaclient.Partition.Transfer.{reconnect}
use libasynckafkaclient.Partition.Responses.{
  error_code, offset_out_of_range, leader_not_available, not_leader_for_partition, c_str,
  leader_moved, set_leader, start_offset, handle_kafka_error, resend, handle_produce_response,
}

-- c_str() gives a string back exactly when it holds no zero byte.
c_str-eq_iff : (s : List ℕ) → (c_str s ≡ s) ↔ All (λ b. b ≢ 0) s
unfolding c_str
c_str-eq_iff [] = (λ h. tt, λ h. refl)
c_str-eq_iff (b ∷ s) =
    (λ h. ground (arith, (c_str-eq_iff s).0), λ h. ground (arith, (c_str-eq_iff s).1 h.1))

-- The codes that handleKafkaError answers by a request.
abbrev pub Handled : ℤ → Type 0
Handled ec =
    (ec ≡ error_code offset_out_of_range)
    ⊎ (ec ≡ error_code leader_not_available)
    ⊎ (ec ≡ error_code not_leader_for_partition)

ne-==ℤ : (a b : ℤ) → a ≢ b → (a ==ℤ b) ≡ false
ne-==ℤ a b h = elim (Bool-cases (a ==ℤ b)) [ inl e ↦ absurd (h (==ℤ→≡ a b e)) | inr e ↦ e ]

handle_kafka_error_logged :
    (a : Asio) (os : Os) (fuel : ℕ) (ec : ℤ) (s : Sys)
    → ¬ Handled ec
    → handle_kafka_error a os fuel ec s ≡ ok s
unfolding handle_kafka_error
handle_kafka_error_logged a os fuel ec s h =
    rw
      (
        ne-==ℤ ec (error_code offset_out_of_range) (λ e. h (inl e)),
        ne-==ℤ ec (error_code leader_not_available) (λ e. h (inr (inl e))),
        ne-==ℤ ec (error_code not_leader_for_partition) (λ e. h (inr (inr e))),
      )
      refl

-- When a produce response has an error that handleKafkaError only logs, the oldest request in transit
-- is taken off and a request is queued behind the others in its place, which is the same exactly if
-- it has no zero byte.
pub handle_produce_response_resends :
    (a : Asio) (os : Os) (fuel : ℕ) (frame : List ℕ) (s : Sys) (req : List ℕ) (rest : List (List ℕ))
    → s.part.q_in_transit_produce_request ≡ req ∷ rest
    → ((a.read_produce frame s.part.topic s.part.partition).0 ==ℤ pos 0) ≡ false
    → ¬ Handled (a.read_produce frame s.part.topic s.part.partition).0
    → (again : List ℕ) × (handle_produce_response a os fuel frame s
        ≡ ok (
            push_back api_key_produce again
              (with_part (record (s.part) { q_in_transit_produce_request = rest }) s)))
      × ((again ≡ req) ↔ All (λ b. b ≢ 0) req)
unfolding handle_produce_response resend
handle_produce_response_resends a os fuel frame s req rest transit failed logged = (
  c_str req,
  simp
      (
        failed,
        handle_kafka_error_logged a os fuel (a.read_produce frame s.part.topic s.part.partition).0 s
            logged,
        transit,
      )
      refl,
  c_str-eq_iff req,
)

find_first-none :
    (l : List KafkaBroker) (id : ℤ)
    → All (λ b. b.id ≡ id) l
    → find_first (λ b. not (b.id ==ℤ id)) l ≡ none
find_first-none [] id h = refl
find_first-none (b ∷ l) id h = rw (h.0, ==ℤ-refl id) (find_first-none l id h.1)

-- When a connection is lost and every known broker has the id of the present leader, as in a
-- cluster of one broker, the reconnection dereferences the end of the broker list.
pub reconnect_undefined :
    (a : Asio) (os : Os) (write_ready : Sys → Outcome Sys) (s : Sys)
    → All (λ b. b.id ≡ s.part.leader.id) s.part.brokers
    → reconnect a os write_ready s ≡ undefined
unfolding reconnect drop_socket
reconnect_undefined a os write_ready s h =
    rw (find_first-none s.part.brokers s.part.leader.id h, reconnect) refl

-- After the partition has taken over a leader with a port below 2 ^ 16 from a metadata response,
-- the same response with the same address moves it again exactly if the port does not fit an
-- int16_t, from 2 ^ 15 on.
pub leader_moved-set_leader :
    (leader : MetadataBroker) (ip : Str) (n : ℕ) (s : Sys)
    → leader.port ≡ pos n
    → n < 2 ^ 16
    → leader_moved ip leader (set_leader leader ip s).part ≡ leb (2 ^ 15) n
leader_moved-set_leader leader ip n s port fits = rw (port, str_eq_refl ip) (ground arith)

-- An offset response sets the next offset to the broker's if the consumer starts from the end;
-- otherwise it raises the next offset to the broker's if it lies below, and never lowers it.
pub start_offset_lem :
    (mode : KafkaFetchOffset) (next new_start : ℤ)
    → let r = start_offset mode next new_start in
      ((mode ≡ from_end) × (r ≡ new_start))
      ⊎ ((mode ≢ from_end) × (next ≤ℤ r) × (new_start ≤ℤ r) × ((r ≡ next) ⊎ (r ≡ new_start)))
unfolding start_offset
start_offset_lem from_end next new_start = inl (refl, refl)
start_offset_lem from_beginning next new_start =
    inr (λ e. cc, ground arith, ground arith, ground arith)
start_offset_lem from_stored next new_start =
    inr (λ e. cc, ground arith, ground arith, ground arith)
