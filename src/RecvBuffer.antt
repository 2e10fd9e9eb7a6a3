-- ===== src/RecvBuffer.antt =====
-- The receive buffers: `recv_alloc_cb` of src/core/httpserver.cpp and of src/core/WebSocket.cpp.
-- Only the buffer's length is modelled; `realloc` is taken to succeed.
use my_web_socket.Prelude.{
  ℕ, zero, suc, ◌+◌, ◌*◌, ◌%◌, ◌^◌, ◌≤◌, ◌<◌, ◌≡◌, refl, ◌∙◌, Bool-cases, true, false, inl, inr,
  Option, none, some, ltb, ltb→lt, if◌then◌else◌, arith,
}
use my_web_socket.WebSocket.{WsSession}

-- The loop, on fuel: the length is tripled in 64 bits until it is large enough.
unfoldable pub grow : ℕ → ℕ → ℕ → Option ℕ
grow zero buf_size suggested_size = if ltb buf_size suggested_size then none else some buf_size
grow (suc fuel) buf_size suggested_size =
    let rest = grow fuel ((buf_size + buf_size * 2 % 2 ^ 64) % 2 ^ 64) suggested_size in
    if ltb buf_size suggested_size then rest else some buf_size

-- The length of the buffer after the call; `none` is a loop that does not end.
unfoldable pub recv_alloc_cb : ℕ → ℕ → Option ℕ
unfolding grow
recv_alloc_cb len suggested_size =
    let grown = grow suggested_size len suggested_size in
    if ltb len suggested_size then grown else some len

unfoldable pub ws_recv_alloc_cb : WsSession → ℕ → Option WsSession
unfolding grow
ws_recv_alloc_cb s suggested_size =
    let grown = grow suggested_size s.recv_buf_len suggested_size in
    if ltb s.recv_buf_len suggested_size
    then elim grown [ none ↦ none | some n ↦ some (record s { recv_buf_len = n }) ]
    else some s

-- Room for the suggested size and for what was there, and never more than three times the suggested
-- size unless it was there.
abbrev pub HasRoom : ℕ → ℕ → ℕ → Type 0
HasRoom b s n = (s ≤ n) × (b ≤ n) × (n ≤ (if ltb b s then 3 * s else b))

tripled : (b : ℕ) → b < 2 ^ 62 → (b + b * 2 % 2 ^ 64) % 2 ^ 64 ≡ 3 * b
tripled b h = omega (arith, h)

HasRoom-tripled : (b s n : ℕ) → b < s → HasRoom (3 * b) s n → HasRoom b s n
HasRoom-tripled b s n below (enough, kept, few) = (enough, omega (arith, kept), ground (arith, few))

HasRoom-same : (b s : ℕ) → ltb b s ≡ false → HasRoom b s b
HasRoom-same b s h = (ground (arith, h), omega arith, ground (arith, h))

grow_more : (fuel b s : ℕ) → b < 2 ^ 62 → ltb b s ≡ true → grow (suc fuel) b s ≡ grow fuel (3 * b) s
unfolding grow
grow_more fuel b s h less = rw (tripled b h, less) refl

grow-enough :
    (fuel b s : ℕ)
    → 0 < b
    → s ≤ 2 ^ 62
    → s ≤ b + fuel
    → (n : ℕ) × (grow fuel b s ≡ some n) × HasRoom b s n
unfolding grow
grow-enough zero b s pos small enough = (b, ground arith, HasRoom-same b s (ground arith))
grow-enough (suc fuel) b s pos small enough = elim (Bool-cases (ltb b s)) [
  | inl less ↦
      let below = ltb→lt b s less in
      let more = grow_more fuel b s (omega (arith, below)) less in
      let (n, e, room) = grow-enough fuel (3 * b) s (omega arith) small (omega arith) in
      (n, more ∙ e, HasRoom-tripled b s n below room)
  | inr more ↦ (b, ground (arith, more), HasRoom-same b s more)
]

-- From a length that is not 0, and for a suggested size of at most 2 ^ 62, the loop ends and the
-- buffer of the HTTP session has room for the suggested size; it is as long as before if it had
-- room, and else at most three times the suggested size.
pub recv_alloc_cb-HasRoom :
    (len suggested_size : ℕ)
    → 0 < len
    → suggested_size ≤ 2 ^ 62
    → (n : ℕ) × (recv_alloc_cb len suggested_size ≡ some n) × HasRoom len suggested_size n
unfolding recv_alloc_cb
recv_alloc_cb-HasRoom len s pos small =
    let (n, e, room) = grow-enough s len s pos small (omega arith) in
    elim (Bool-cases (ltb len s)) [
      | inl less ↦ (n, rw less e, room)
      | inr more ↦ (len, ground (arith, more), HasRoom-same len s more)
    ]

-- From a length that is not 0, and for a suggested size of at most 2 ^ 62, the loop of the
-- websocket session ends too: nothing but the length changes, the buffer has room for the suggested
-- size, and it is as long as before if it had room, else at most three times the suggested size.
pub ws_recv_alloc_cb-HasRoom :
    (w : WsSession) (suggested_size : ℕ)
    → 0 < w.recv_buf_len
    → suggested_size ≤ 2 ^ 62
    → (n : ℕ) × (ws_recv_alloc_cb w suggested_size ≡ some (record w { recv_buf_len = n }))
      × HasRoom w.recv_buf_len suggested_size n
unfolding ws_recv_alloc_cb
ws_recv_alloc_cb-HasRoom w s pos small =
    let (n, e, room) = grow-enough s w.recv_buf_len s pos small (omega arith) in
    elim (Bool-cases (ltb w.recv_buf_len s)) [
      | inl less ↦ (n, rw (less, e) refl, room)
      | inr more ↦ (w.recv_buf_len, rw more refl, HasRoom-same w.recv_buf_len s more)
    ]
