-- ===== src/Net/Streams/Moves.antt =====
-- Streams that are made, moved and assigned: no connection is in two of them.
use vee.Base.{ℕ, suc, ◌<◌, ◌≡◌, Option, some, List, [], ◌∷◌, ◌==◌, if◌then◌else◌, arith, update}
use vee.Net.Streams.{
  TcpStream, TcpServer, new_stream, take_socket, move_stream, assign_stream, accept_stream,
}

-- The streams of a program, and the connections that were given out: those below `next`.
pub record Streams : Type 0 where
  pub next : ℕ
  pub streams : ℕ → TcpStream

-- What happens to the streams: one is made of an event loop, one is accepted by a server, one is
-- made of another, one is assigned from another.
pub data Change : Type 0 where
  makes : (i io_service : ℕ) → Change
  accepts : (i : ℕ) → TcpServer → Change
  moves : (i j : ℕ) → Change
  assigns : (i j : ℕ) → Change

abbrev pub two_updates : (ℕ → TcpStream) → ℕ → ℕ → TcpStream × TcpStream → ℕ → TcpStream
two_updates streams i j (a, b) = update (update streams j b) i a

-- A stream is not moved into itself; assigned from itself it is left as it is.
unfoldable pub apply : Change → Streams → Streams
unfolding new_stream accept_stream move_stream assign_stream
apply (makes i io_service) s = record s { streams = update s.streams i (new_stream io_service) }
apply (accepts i server) s = record {
  next = suc s.next;
  streams = update s.streams i (accept_stream server s.next);
}
apply (moves i j) s =
    if i == j
    then s
    else record s { streams = two_updates s.streams i j (move_stream (s.streams j)) }
apply (assigns i j) s = if i == j then s else record s {
  streams = two_updates s.streams i j (assign_stream (s.streams i) (s.streams j));
}

unfoldable pub apply_all : List Change → Streams → Streams
unfolding apply
apply_all [] s = s
apply_all (c ∷ cs) s = apply_all cs (apply c s)

abbrev pub connection_of : Streams → ℕ → Option ℕ
connection_of s i = (s.streams i).socket.connection

pub record IsOwned (s : Streams) : Type 0 where
  pub below : (i h : ℕ) → connection_of s i ≡ some h → h < s.next
  pub unique : (i j h : ℕ) → connection_of s i ≡ some h → connection_of s j ≡ some h → i ≡ j

apply-IsOwned : (c : Change) (s : Streams) → IsOwned s → IsOwned (apply c s)
unfolding apply new_stream accept_stream move_stream assign_stream take_socket
apply-IsOwned (makes i io_service) s v = record {
  below = λ k h e. ground (arith, v.below k h);
  unique = λ k l h e g. ground (arith, v.unique k l h);
}
apply-IsOwned (accepts i server) s v = record {
  below = λ k h e. ground (arith, v.below k h);
  unique = λ k l h e g. ground (arith, v.unique k l h, v.below k h, v.below l h);
}
apply-IsOwned (moves i j) s v = record {
  below = λ k h e. ground (arith, v.below k h, v.below j h);
  unique = λ k l h e g. ground (arith, v.unique k l h, v.unique k j h, v.unique j l h);
}
apply-IsOwned (assigns i j) s v = record {
  below = λ k h e. ground (arith, v.below k h, v.below i h, v.below j h);
  unique = λ k l h e g. ground (
    arith,
    v.unique k l h,
    v.unique k j h,
    v.unique j l h,
    v.unique k i h,
    v.unique i l h,
    v.unique i j h,
  );
}

-- No streams are connected.
abbrev pub no_streams : Streams
no_streams = record { next = 0; streams = λ i. new_stream 0 }

no_streams-IsOwned : IsOwned no_streams
unfolding new_stream
no_streams-IsOwned = record {
  below = λ i h e. ground (arith, e);
  unique = λ i j h e g. ground (arith, e);
}

from-IsOwned : (cs : List Change) (s : Streams) → IsOwned s → IsOwned (apply_all cs s)
unfolding apply_all
from-IsOwned [] s v = v
from-IsOwned (c ∷ cs) s v = from-IsOwned cs (apply c s) (apply-IsOwned c s v)

-- Whatever streams are made, accepted, moved and assigned, in any order: no connection is in two
-- streams, and each is one that a server has accepted.
pub apply_all-IsOwned : (cs : List Change) → IsOwned (apply_all cs no_streams)
apply_all-IsOwned cs = from-IsOwned cs no_streams no_streams-IsOwned
