-- ===== src/Servers.antt =====
-- The two servers of a program, as src/core/WsServer.cpp joins them: the constructor of `WsServer`
-- sets the callback that `HttpServer::upgradeSession` of src/core/httpserver.cpp runs, which makes a
-- websocket session of an HTTP session. `cb` are the callbacks of the websocket sessions,
-- `on_connect` that of their server.
pub mod Upgraded
pub mod Handover
pub mod Steps
pub mod Buffers
pub mod Conversation
use my_web_socket.Prelude.{
  ℕ, suc, ◌≡◌, Bool, Option, none, some, List, [], ◌∷◌, ◌==◌, if◌then◌else◌,
}
use my_web_socket.Parser.{WsFrame}
use my_web_socket.Router.{RegexEngine}
use my_web_socket.HttpSession.{
  HttpEffect, on_upgrade, HttpEvent, HttpSession, http_step, transfer_buffer_to_ws_session,
}
use my_web_socket.HttpServer
use my_web_socket.HttpServer.{HttpServer, Accepted, inter_on_connect}
use my_web_socket.WebSocket.{WsSession, Call, Callbacks}
use my_web_socket.WsServer
use my_web_socket.WsServer.{WsServer, SessionEvent, new_ws_server}

pub record Servers (Pattern Handler Callback : Type 0) : Type 0 where
  pub http : HttpServer Pattern Handler Callback
  pub ws : WsServer

-- What the loop reports: a connection, an event of an HTTP session, with what the memory of a
-- websocket session's frame holds if one is made, or an event of a websocket session.
pub data ServersEvent : Type 0 where
  connection : Bool → Accepted → ServersEvent
  http_event : HttpEvent → ℕ → WsFrame → ServersEvent
  ws_event : SessionEvent → ℕ → ServersEvent

-- How often an HTTP session had its server call `onUpgradeCb`.
unfoldable pub hand_overs : {Handler : Type 0} → List (HttpEffect Handler) → ℕ
hand_overs [] = 0
hand_overs (on_upgrade ∷ es) = suc (hand_overs es)
hand_overs (_ ∷ es) = hand_overs es

-- The callback, if the session's step from `s` to `t` called it: the websocket session takes the
-- receive buffer.
unfoldable pub hand_over :
    {Handler : Type 0}
    → Callbacks
    → Option (WsSession → List Call)
    → WsFrame
    → HttpSession Handler
    → HttpSession Handler
    → WsServer
    → WsServer
unfolding hand_overs transfer_buffer_to_ws_session
hand_over cb on_connect frame s t ws =
    if hand_overs t.log == hand_overs s.log
    then ws
    else WsServer.on_upgrade cb on_connect frame (transfer_buffer_to_ws_session t).1 ws

module _ {Pattern Handler Callback : Type 0} where
  -- The constructor of `WsServer`: `ws_on_upgrade` is the callback that it sets.
  unfoldable pub join :
      Callback → HttpServer Pattern Handler Callback → Servers Pattern Handler Callback
  unfolding new_ws_server HttpServer.on_upgrade
  join ws_on_upgrade http = record {
    http = HttpServer.on_upgrade ws_on_upgrade http;
    ws = new_ws_server;
  }

  module _ (cb : Callbacks) (on_connect : Option (WsSession → List Call)) where
    module _ (engine : RegexEngine Pattern) (calculate_accept_key : List ℕ → List ℕ) where
      unfoldable pub handed_over :
          HttpEvent → ℕ → WsFrame → Servers Pattern Handler Callback → WsServer
      unfolding hand_over http_step
      handed_over ev i frame sv = elim (sv.http.objects i) [
        | none ↦ sv.ws
        | some s ↦
            hand_over cb on_connect frame s
              (http_step calculate_accept_key engine sv.http.router sv.http.keep_alive_timeout ev s)
              sv.ws
      ]

      -- `none` is a websocket session whose parser does not return.
      unfoldable pub servers_step :
          ServersEvent
          → Servers Pattern Handler Callback
          → Option (Servers Pattern Handler Callback)
      unfolding handed_over HttpServer.server_step inter_on_connect WsServer.server_step
      servers_step (connection failed a) sv =
          some (record sv { http = inter_on_connect failed a sv.http })
      servers_step (http_event ev i frame) sv = some (record {
        http = HttpServer.server_step engine calculate_accept_key ev i sv.http;
        ws = handed_over ev i frame sv;
      })
      servers_step (ws_event ev i) sv = elim (WsServer.server_step cb ev i sv.ws) [
        | none ↦ none
        | some ws ↦ some (record sv { ws = ws })
      ]

      -- The pairs of servers that the loop can come to. The program sets up its HTTP server before
      -- it makes the other.
      pub data Reach (ip : List ℕ) (port : ℕ) : Servers Pattern Handler Callback → Type 0 where
        joined :
            {http : HttpServer Pattern Handler Callback} (ws_on_upgrade : Callback)
            → HttpServer.Reach engine calculate_accept_key ip port http
            → Reach ip port (join ws_on_upgrade http)
        moved :
            {sv next : Servers Pattern Handler Callback} (ev : ServersEvent)
            → Reach ip port sv
            → servers_step ev sv ≡ some next
            → Reach ip port next
