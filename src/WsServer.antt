-- ===== src/WsServer.antt =====
-- The websocket server, include/WsServer.h and src/core/WsServer.cpp, with the sessions that it
-- makes. A session pointer is a number, which is not used again; `objects` is the memory that the
-- pointers lead to. The event loop runs one event at a time, so the lock is not modelled. The
-- program's callbacks are parameters: `cb` those of the sessions, `on_connect` the server's.
pub mod Sessions
pub mod Final
pub mod Settling
pub mod Registered
pub mod HangUp
pub mod Stream
use my_web_socket.Prelude.{
  ℕ, zero, suc, ◌-◌, ◌≡◌, Option, none, some, List, [], ◌∷◌, length, Bool, ◌==◌, if◌then◌else◌,
}
use my_web_socket.Parser.{WsFrame, WsParser, new_parser}
use my_web_socket.FileReader.{FileReader}
use my_web_socket.WebSocket.{
  WsSession, WsStatus, closed, Call, Callbacks, Effect, remove_ws_session, connect, run, recv_cb,
  write_cb, file_closed,
}
use my_web_socket.Registry.{push_ws_session}
use my_web_socket.Registry

pub record WsServer : Type 0 where
  pub ws_sessions : List ℕ
  pub objects : ℕ → Option (WsParser WsSession)
  pub next_session : ℕ

unfoldable pub new_ws_server : WsServer
new_ws_server = record { ws_sessions = []; objects = λ i. none; next_session = 0 }

-- `getWsCount`.
unfoldable pub get_ws_count : WsServer → ℕ
get_ws_count srv = length srv.ws_sessions

-- The constructor of `WsSession`, with the receive buffer of the HTTP session. `frame` is what the
-- memory of `m_frame` holds.
unfoldable pub new_ws_session : WsFrame → ℕ → WsParser WsSession
unfolding new_parser
new_ws_session frame recv_buf_len =
    new_parser frame
      (record { ready_state = closed; recv_buf_len = recv_buf_len; next_ctx = 0; log = [] })

-- How often the session called `removeWsSession`.
unfoldable pub removals : List Effect → ℕ
removals [] = 0
removals (remove_ws_session ∷ es) = suc (removals es)
removals (_ ∷ es) = removals es

unfoldable pub remove_times : ℕ → ℕ → List ℕ → List ℕ
remove_times zero i xs = xs
remove_times (suc n) i xs = remove_times n i (Registry.remove_ws_session xs i)

abbrev pub update {ℓ} : {A : Type ℓ} → (ℕ → A) → ℕ → A → ℕ → A
update f i a j = if i == j then a else f j

-- What comes to a session: a read, a call of the program, the end of a write and of a file's
-- reading.
pub data SessionEvent : Type 0 where
  received : Option (List ℕ) → SessionEvent
  called : Call → SessionEvent
  written : ℕ → Bool → SessionEvent
  file_ended : FileReader → SessionEvent

-- The session `i` becomes `q`, and the server does the removals that it asked for meanwhile.
unfoldable pub settle : WsServer → ℕ → WsParser WsSession → WsParser WsSession → WsServer
unfolding removals remove_times
settle srv i p q = record srv {
  ws_sessions = remove_times (removals q.owner.log - removals p.owner.log) i srv.ws_sessions;
  objects = update srv.objects i (some q);
}

-- A new session object, and `pushWsSession`.
unfoldable pub register : WsParser WsSession → WsServer → WsServer
unfolding push_ws_session
register p srv = record srv {
  ws_sessions = push_ws_session srv.ws_sessions srv.next_session;
  objects = update srv.objects srv.next_session (some p);
  next_session = suc srv.next_session;
}

module _ (cb : Callbacks) where
  unfoldable pub session_step : SessionEvent → WsParser WsSession → Option (WsParser WsSession)
  unfolding recv_cb run write_cb file_closed
  session_step (received read) p = recv_cb cb read p
  session_step (called c) p = some (record p { owner = run cb (c ∷ []) p.owner })
  session_step (written ctx failed) p = some (record p { owner = write_cb cb ctx failed p.owner })
  session_step (file_ended r) p = some (record p { owner = file_closed r p.owner })

  -- `none` is a session whose parser does not return; an event of no session changes nothing.
  unfoldable pub server_step : SessionEvent → ℕ → WsServer → Option WsServer
  unfolding session_step settle
  server_step ev i srv = elim (srv.objects i) [
    | none ↦ some srv
    | some p ↦ elim (session_step ev p) [ none ↦ none | some q ↦ some (settle srv i p q) ]
  ]

  module _ (on_connect : Option (WsSession → List Call)) where
    -- `onUpgrade`: the callback finds a session that is not connected.
    unfoldable pub greeted : WsSession → WsSession
    unfolding run
    greeted s = elim on_connect [ none ↦ s | some f ↦ run cb (f s) s ]

    unfoldable pub on_upgrade : WsFrame → ℕ → WsServer → WsServer
    unfolding new_ws_session register greeted connect settle
    on_upgrade frame recv_buf_len srv =
        let p = new_ws_session frame recv_buf_len in
        settle (register p srv) srv.next_session p
          (record p { owner = connect cb (greeted p.owner) })

    -- The servers that the loop can come to.
    pub data Reach : WsServer → Type 0 where
      start : Reach new_ws_server
      upgraded :
          {srv : WsServer} (frame : WsFrame) (recv_buf_len : ℕ)
          → Reach srv
          → Reach (on_upgrade frame recv_buf_len srv)
      stepped :
          {srv next : WsServer} (ev : SessionEvent) (i : ℕ)
          → Reach srv
          → server_step ev i srv ≡ some next
          → Reach next
