-- ===== src/Net/Socket.antt =====
-- A socket of boost::asio, which the repository does not hold: what the streams call of it, with
-- the documented bound on the bytes that one call transfers. Its state stands for the connection
-- and the network too. An error is `none`, or true where nothing else is returned.
use vee.Base.{ℕ, ◌≤◌, ◌≡◌, Bool, Option, some, List, length}

-- An address in text and a port.
pub record Endpoint : Type 0 where
  pub ip_addr : List ℕ
  pub port : ℕ

pub record Socket : Type 1 where
  pub State : Type 0
  pub is_open : State → Bool
  pub connects : State → Endpoint → Bool × State
  pub write_some : State → List ℕ → Option ℕ × State
  pub read_some : State → ℕ → Option (List ℕ) × State
  pub closes : State → State
  -- The calls that start an operation, which ends later with an error flag and a count.
  pub start_connect : State → Endpoint → State
  pub start_write : State → List ℕ → State
  pub start_read : State → ℕ → State
  pub write_bound :
      (s : State) (bytes : List ℕ) (n : ℕ) → (write_some s bytes).0 ≡ some n → n ≤ length bytes
  pub read_bound :
      (s : State) (n : ℕ) (bytes : List ℕ) → (read_some s n).0 ≡ some bytes → length bytes ≤ n
