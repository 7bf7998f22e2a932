-- ===== src/Net/Client.antt =====
-- libvee_master/voost/net/tcp_client_impl.cpp: `tcp_client` on a socket of boost::asio, without the
-- declaration of the class, which the repository does not hold. Every error is swallowed; a count
-- is 0 then.
use vee.Base.{ℕ, Bool, not, Option, none, some, List, ◌++◌, if◌then◌else◌, leb, length, take, drop}
use vee.Net.Socket.{Endpoint, Socket}

module _ (socket : Socket) where
  open socket use {State, connects, write_some, read_some, closes}

  -- The flag of an error is turned around.
  unfoldable pub connect : State → Endpoint → Bool × State
  connect s ep = let r = connects s ep in (not r.0, r.1)

  unfoldable pub written : Option ℕ → ℕ
  written none = 0
  written (some n) = n

  -- The buffer must hold `len` bytes.
  unfoldable pub write : State → List ℕ → ℕ → Option (ℕ × State)
  unfolding written
  write s buffer len =
      if leb len (length buffer)
      then (let r = write_some s (take len buffer) in some (written r.0, r.1))
      else none

  -- The bytes that were read are put in front of the buffer, which is not filled with zeros.
  unfoldable pub filled : List ℕ → Option (List ℕ) → ℕ × List ℕ
  filled buffer none = (0, buffer)
  filled buffer (some bytes) = (length bytes, bytes ++ drop (length bytes) buffer)

  unfoldable pub read : State → List ℕ → ℕ → Option ((ℕ × List ℕ) × State)
  unfolding filled
  read s buffer len =
      if leb len (length buffer)
      then (let r = read_some s len in some (filled buffer r.0, r.1))
      else none

  unfoldable pub is_open : State → Bool
  is_open s = socket.is_open s

  unfoldable pub close : State → State
  close s = closes s

  -- The destructor.
  unfoldable pub destroy : State → State
  unfolding is_open close
  destroy s = if is_open s then close s else s
