-- ===== src/Partition/Frames.antt =====
-- onReadReady of src/KafkaEndpointMP.cpp reads one frame, however it is cut up by the network, and
-- hands it to the handler that its correlation id names.
use libasynckafkaclient.Prelude.{
  ℕ, zero, suc, ◌+◌, ◌^◌, ◌%◌, ◌-◌, ◌<◌, ◌≡◌, ◌≢◌, refl, sym, ◌∙◌, subst, false, some, List, length,
  arith, Bool-cases, inl, inr, ◌==◌, ==_iff,
}
use libasynckafkaclient.Prelude.Int.{pos, leb_ℤ}
use libasynckafkaclient.Os.{Os, World, tock, tocks, slept_ms}
use libasynckafkaclient.Net.{complete, res, read_data}
use libasynckafkaclient.Net.Framing.{Delivers, joined, read_data-Delivers}
use libasynckafkaclient.Asio.{Asio}
use libasynckafkaclient.Partition.State.{Sys, act}
use libasynckafkaclient.Partition.Reading.{
  ntohl, dispatch, on_frame, on_body, read_body, on_size, on_read_ready,
}

pub tocks-tick : (n : ℕ) (w : World) → (tocks n w).tick ≡ w.tick + n
tocks-tick zero w = omega arith
tocks-tick (suc n) w = omega (arith, tocks-tick n (tock w))

-- The socket delivers, from call number t on, a length prefix in the pieces `head` and then a frame
-- of that length in the pieces `body`. The frame has between 1 and 2 ^ 31 - 1 bytes and starts with
-- the correlation id, which is not the code of -1.
pub record Arrives (os : Os) (t : ℕ) (head body : List (List ℕ)) (id : ℕ) : Type 0 where
  pub prefix : length (joined head) ≡ 4
  pub size : ntohl (joined head) ≡ some (length (joined body))
  pub positive : 0 < length (joined body)
  pub fits : length (joined body) < 2 ^ 31
  pub head_comes : Delivers os t head
  pub body_comes : Delivers os (t + length head) body
  pub correlation : ntohl (joined body) ≡ some id
  pub valid_id : id ≢ 2 ^ 32 - 1

neq_false : (m n : ℕ) → m ≢ n → (m == n) ≡ false
neq_false m n ne = elim (Bool-cases (m == n)) [ inl e ↦ absurd (ne ((==_iff m n).0 e)) | inr e ↦ e ]

not_res_zero :
    (buf : List ℕ)
    → 0 < length buf
    → length buf < 2 ^ 31
    → leb_ℤ (res (complete buf)) (pos 0) ≡ false
not_res_zero buf p fits =
    let small : length buf % 2 ^ 32 ≡ length buf = omega arith in rw (small) (ground arith)

module _ (a : Asio) (os : Os) (fuel : ℕ) where
  on_frame-dispatch :
      (frame : List ℕ) (id : ℕ) (s : Sys)
      → ntohl frame ≡ some id
      → id ≢ 2 ^ 32 - 1
      → on_frame a os fuel frame s ≡ dispatch a os fuel id frame s
  unfolding on_frame
  on_frame-dispatch frame id s e ne = rw (on_frame, e, neq_false id (2 ^ 32 - 1) ne) refl

  on_body-on_frame :
      (frame : List ℕ) (s : Sys)
      → 0 < length frame
      → length frame < 2 ^ 31
      → on_body a os fuel (complete frame) s ≡ on_frame a os fuel frame s
  unfolding on_body
  on_body-on_frame frame s p fits = rw (on_body, not_res_zero frame p fits) refl

  -- A frame that arrives in any pieces is read whole, and nothing but the frame is read: the handler
  -- is given all of its bytes, after the pause of a millisecond and one read() for each piece.
  pub on_read_ready-dispatch :
      (head body : List (List ℕ)) (id : ℕ) (s : Sys)
      → Arrives os s.world.tick head body id
      → on_read_ready a os fuel s
        ≡ dispatch a os fuel id (joined body) (record s {
          world = tocks (length body) (tocks (length head) (act (slept_ms 1) s).world);
        })
  unfolding on_read_ready on_size read_body
  on_read_ready-dispatch head body id s h =
      let w = (act (slept_ms 1) s).world in
      let first : read_data os 4 w ≡ (complete (joined head), tocks (length head) w) =
        subst (λ n. read_data os n w ≡ (complete (joined head), tocks (length head) w)) h.prefix
          (read_data-Delivers os head w h.head_comes) in
      let second =
        read_data-Delivers os body (tocks (length head) w)
          (subst (λ t. Delivers os t body) (sym (tocks-tick (length head) w)) h.body_comes) in
      rw (first, on_size, h.size, second)
        (on_body-on_frame (joined body) _ h.positive h.fits
          ∙ on_frame-dispatch (joined body) id _ h.correlation h.valid_id)
