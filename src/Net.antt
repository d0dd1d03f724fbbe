-- ===== src/Net.antt =====
-- namespace utils of src/KafkaEndpointMP.h: connectServer, hostnameToIp and readData.
pub mod Backoff
pub mod Framing
use libasynckafkaclient.Prelude.{
  ℕ, zero, suc, ◌+◌, ◌-◌, ◌*◌, ◌^◌, Bool, true, false, Option, none, some, List, [], ◌∷◌, ◌++◌,
  length, ◌==◌, ltb, if◌then◌else◌,
}
use libasynckafkaclient.Prelude.Int.{ℤ, pos, minus_one, ltb_ℤ, int32_of}
use libasynckafkaclient.Config.{Str}
use libasynckafkaclient.Os.{
  Os, World, tock, log, Errno, ReadAnswer, bytes, read_failed, slept_ms, closed,
}

-- connectServer: the first attempt and at most max_retries + 1 more.
abbrev pub max_retries : ℕ
max_retries = 3

-- The timeout before retry ii, `1 << (ii * 2)` seconds.
abbrev pub backoff_secs : ℕ → ℕ
backoff_secs ii = 2 ^ (ii * 2)

-- The retry loop with the rounds that are left; the answer says whether one of them connected.
unfoldable pub connect_retries : Os → ℕ → ℕ → World → Bool × World
connect_retries os zero ii w = (false, w)
connect_retries os (suc rounds) ii w =
    let slept = log (slept_ms (backoff_secs ii * 1000)) w in
    let rest = connect_retries os rounds (suc ii) (tock slept) in
    if os.connects slept.tick then (true, tock slept) else rest

-- What the loop's answer makes of the socket.
abbrev pub finish_connect : ℤ → Bool × World → ℤ × World
finish_connect sock_fd (true, w) = (sock_fd, w)
finish_connect sock_fd (false, w) = (minus_one, log (closed sock_fd) w)

unfoldable pub connect_server : Os → World → ℤ × World
unfolding connect_retries
connect_server os w =
    let sock_fd = os.socket w.tick in
    let w1 = tock w in
    if ltb_ℤ sock_fd (pos 0)
    then (sock_fd, w1)
    else if os.connects w1.tick
    then (sock_fd, tock w1)
    else finish_connect sock_fd (connect_retries os (max_retries + 1) 0 (tock w1))

-- hostnameToIp: the return code, and the buffer `ip` after the call. `none` is a buffer that was
-- never written.
unfoldable pub hostname_to_ip : Os → Str → Option Str → ℕ × Option Str
hostname_to_ip os hostname ip = elim (os.gethostbyname hostname) [
  | none ↦ (1, ip)
  | some addr_list ↦ elim addr_list [ [] ↦ (1, ip) | addr ∷ _ ↦ (0, some addr) ]
]

-- readData answers -1, 0 or the size, and fills the buffer.
pub data ReadData : Type 0 where
  complete : List ℕ → ReadData
  end_of_stream : ReadData
  failed : Errno → ReadData
  starved : ReadData

-- The `int` that the caller tests; a size of 2^31 or more is converted to a negative one.
abbrev pub res : ReadData → ℤ
res (complete data_read) = int32_of (length data_read)
res end_of_stream = pos 0
res (failed e) = minus_one
res starved = minus_one

-- What one read() answer makes of the loop, whose next round is `next`.
unfoldable pub read_piece : ReadAnswer → (List ℕ → ReadData × World) → World → ReadData × World
read_piece (read_failed e) next w = (failed e, tock w)
read_piece (bytes []) next w = (end_of_stream, tock w)
read_piece (bytes (b ∷ bs)) next w = next (b ∷ bs)

unfoldable pub read_loop : Os → ℕ → ℕ → ℕ → ℕ → List ℕ → World → ReadData × World
read_loop os zero size read_bytes try_read buf w = (starved, w)
read_loop os (suc fuel) size read_bytes try_read buf w = elim (read_bytes == size) [
  | true ↦ (complete buf, w)
  | false ↦
      read_piece (os.read w.tick try_read)
        (λ got.
          read_loop os fuel size (read_bytes + length got) (try_read - length got) (buf ++ got)
            (tock w))
        w
]

unfoldable pub read_data : Os → ℕ → World → ReadData × World
unfolding read_loop read_piece
read_data os size w = read_loop os (suc size) size 0 size [] w
