-- ===== src/Tests/Buffers.antt =====
-- The receive buffers of src/core/httpserver.cpp and src/core/WebSocket.cpp at concrete sizes.
use my_web_socket.Prelude.{◌≡◌, refl, some}
use my_web_socket.RecvBuffer.{recv_alloc_cb}

alloc_test : recv_alloc_cb 4 100 ≡ some 108
unfolding recv_alloc_cb
alloc_test = refl
