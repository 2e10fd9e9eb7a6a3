-- ===== src/Servers/Buffers.antt =====
-- The receive buffer of a connection: allocated by the HTTP session of src/core/httpserver.cpp,
-- made larger by its `recv_alloc_cb`, handed to the websocket session of src/core/WebSocket.cpp,
-- and made larger by that session's `recv_alloc_cb`.
use my_web_socket.Prelude.{
  ℕ, ◌≤◌, ◌<◌, ◌^◌, ◌≡◌, refl, Option, none, some, List, [], ◌∷◌, All, arith,
}
use my_web_socket.Parser.{WsFrame}
use my_web_socket.HttpReq.{HttpReq}
use my_web_socket.HttpSession.{HttpSession, new_http_session, transfer_buffer_to_ws_session}
use my_web_socket.RecvBuffer.{
  recv_alloc_cb, ws_recv_alloc_cb, recv_alloc_cb-HasRoom, ws_recv_alloc_cb-HasRoom,
}
use my_web_socket.WebSocket.{WsSession, Call, Callbacks}
use my_web_socket.Servers.Upgraded.{upgraded_session, upgraded_session-HasBuffer}

-- The calls of the two callbacks for the sizes that libuv suggests, one after the other.
pub alloc_all : {Handler : Type 0} → List ℕ → HttpSession Handler → Option (HttpSession Handler)
alloc_all [] s = some s
alloc_all (n ∷ ns) s = elim (recv_alloc_cb s.recv_buf_len n) [
  | none ↦ none
  | some len ↦ alloc_all ns (record s { recv_buf_len = len })
]

pub ws_alloc_all : List ℕ → WsSession → Option WsSession
ws_alloc_all [] w = some w
ws_alloc_all (n ∷ ns) w = elim (ws_recv_alloc_cb w n) [ none ↦ none | some v ↦ ws_alloc_all ns v ]

-- Sizes for which the loop is known to end.
abbrev pub AreModest : List ℕ → Type 0
AreModest sizes = All (λ n. n ≤ 2 ^ 62) sizes

-- A length has room for all of the sizes.
abbrev pub HoldsAll : ℕ → List ℕ → Type 0
HoldsAll len sizes = All (λ n. n ≤ len) sizes

HoldsAll-le : (a b : ℕ) (sizes : List ℕ) → a ≤ b → HoldsAll a sizes → HoldsAll b sizes
HoldsAll-le a b [] h v = tt
HoldsAll-le a b (n ∷ ns) h v = (omega (arith, v.0), HoldsAll-le a b ns h v.1)

alloc_all-HoldsAll :
    {Handler : Type 0} (sizes : List ℕ) (s : HttpSession Handler)
    → 0 < s.recv_buf_len
    → AreModest sizes
    → (t : HttpSession Handler) × (alloc_all sizes s ≡ some t)
      × (s.recv_buf_len ≤ t.recv_buf_len)
      × HoldsAll t.recv_buf_len sizes
unfolding alloc_all
alloc_all-HoldsAll [] s pos h = (s, refl, omega arith, tt)
alloc_all-HoldsAll (n ∷ ns) s pos h =
    let (len, e, fits) = recv_alloc_cb-HasRoom s.recv_buf_len n pos h.0 in
    let (t, r, more, all) =
      alloc_all-HoldsAll ns (record s { recv_buf_len = len }) (omega (arith, fits, pos)) h.1 in
    (t, rw (e, alloc_all) r, omega (arith, fits, more), (omega (arith, fits, more), all))

ws_alloc_all-HoldsAll :
    (sizes : List ℕ) (w : WsSession)
    → 0 < w.recv_buf_len
    → AreModest sizes
    → (v : WsSession) × (ws_alloc_all sizes w ≡ some v)
      × (w.recv_buf_len ≤ v.recv_buf_len)
      × HoldsAll v.recv_buf_len sizes
unfolding ws_alloc_all
ws_alloc_all-HoldsAll [] w pos h = (w, refl, omega arith, tt)
ws_alloc_all-HoldsAll (n ∷ ns) w pos h =
    let (len, e, fits) = ws_recv_alloc_cb-HasRoom w n pos h.0 in
    let (v, r, more, all) =
      ws_alloc_all-HoldsAll ns (record w { recv_buf_len = len }) (omega (arith, fits, pos)) h.1 in
    (v, rw (e, ws_alloc_all) r, omega (arith, fits, more), (omega (arith, fits, more), all))

-- For any sizes of at most 2 ^ 62 that libuv suggests to an HTTP session since its construction,
-- and then to the websocket session that it becomes, whatever the callbacks are: all the loops of
-- `recv_alloc_cb` end, the HTTP session's buffer has at least 65536 bytes and room for all of its
-- sizes, the websocket session gets that length, and in the end it has at least that length and
-- room for all of its sizes.
pub ws_alloc_all-alloc_all :
    {Handler : Type 0} (cb : Callbacks) (on_connect : Option (WsSession → List Call))
    (memory : HttpReq) (frame : WsFrame) (sizes ws_sizes : List ℕ)
    → AreModest sizes
    → AreModest ws_sizes
    → (s : HttpSession Handler) × (v : WsSession) × (alloc_all sizes (new_http_session memory)
        ≡ some s)
      × (2 ^ 16 ≤ s.recv_buf_len)
      × HoldsAll s.recv_buf_len sizes
      × (ws_alloc_all ws_sizes
            (upgraded_session cb on_connect frame (transfer_buffer_to_ws_session s).1).owner
          ≡ some v)
      × (s.recv_buf_len ≤ v.recv_buf_len)
      × HoldsAll v.recv_buf_len ws_sizes
unfolding transfer_buffer_to_ws_session new_http_session
ws_alloc_all-alloc_all cb on_connect memory frame sizes ws_sizes h k =
    let (s, e, more, all) = alloc_all-HoldsAll sizes (new_http_session memory) (omega arith) h in
    let w = (upgraded_session cb on_connect frame s.recv_buf_len).owner in
    let len : w.recv_buf_len ≡ s.recv_buf_len =
      upgraded_session-HasBuffer cb on_connect frame s.recv_buf_len in
    let (v, r, grown, held) = ws_alloc_all-HoldsAll ws_sizes w (omega (arith, len, more)) k in
    (s, v, e, more, all, r, omega (arith, len, grown), held)
