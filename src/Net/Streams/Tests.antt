-- ===== src/Net/Streams/Tests.antt =====
-- Streams that a server accepts and that change hands.
use vee.Base.{◌≡◌, refl, none, some, List, [], ◌∷◌}
use vee.Net.Streams.{
  TcpServer, new_server, close_server, new_stream, assign_stream, take_socket, accept_stream,
  move_stream,
}
use vee.Net.Streams.Moves.{
  makes, accepts, moves, assigns, Change, apply, apply_all, connection_of, IsOwned, no_streams,
  apply_all-IsOwned,
}

abbrev server : TcpServer
server = new_server 1 80 9

-- A closed server goes on listening.
close_test : (close_server server).acceptor.connection ≡ some 9
unfolding close_server new_server
close_test = refl

-- Assigned from a stream of another event loop, a stream keeps the reference to its own.
assigned_test :
    ((assign_stream (new_stream 2) (accept_stream server 0)).0.host_io_service ≡ 2)
    × ((assign_stream (new_stream 2) (accept_stream server 0)).0.socket.io_service ≡ 1)
unfolding assign_stream new_stream accept_stream take_socket new_server
assigned_test = (refl, refl)

abbrev changes : List Change
changes = makes 0 1 ∷ accepts 1 server ∷ accepts 2 server ∷ assigns 0 1 ∷ moves 3 2 ∷ []

changes_test :
    (connection_of (apply_all changes no_streams) 0 ≡ some 0)
    × (connection_of (apply_all changes no_streams) 2 ≡ none)
    × (connection_of (apply_all changes no_streams) 3 ≡ some 1)
unfolding apply_all apply new_stream accept_stream take_socket assign_stream move_stream new_server
changes_test = (refl, refl, refl)

apply_all-IsOwned_example : IsOwned (apply_all changes no_streams)
apply_all-IsOwned_example = apply_all-IsOwned changes
