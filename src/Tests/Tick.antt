-- ===== src/Tests/Tick.antt =====
-- Runs of the server's loop.
use ext_quiche.Base.{◌≡◌, refl, true, false, none, some, List, [], ◌∷◌, arith}
use ext_quiche.Base.Map.{get}
use ext_quiche.Connection.{new_bidi, received}
use ext_quiche.External.Php.{incoming, chunk, peer_closed}
use ext_quiche.Socket.Tick.{Ready, select, tick}
use ext_quiche.Socket.Tick.Late.{tick-late}
use ext_quiche.Socket.Tick.Returns.{Returns}
use ext_quiche.Socket.Tick.Fresh.{IsFresh, tick-IsFresh}
use ext_quiche.Tests.Host.{hosting, serving, open_conn, server, echoing, attending}
use ext_quiche.Socket.Courtesy.{Courteous}
use ext_quiche.Socket.Courtesy.Arrivals.{Shows, shown_bidi, shown_uni, dispatch-Shows}
use ext_quiche.Connection.{new_uni}
use ext_quiche.Socket.Tick.Heard.{Delivers, tick-Hears}

abbrev pub quiet_turn : Ready
quiet_turn = record { server_event = none; conn_close = none; listener = none; event_fd = false }

-- The connection ends and its last event is polled after that; then a peer connects.
abbrev ending : Ready
ending = record quiet_turn { conn_close = some (7, true); event_fd = true }

abbrev behind : Ready
behind = record quiet_turn { server_event = some (7, received 4 (65 ∷ []) true) }

abbrev arriving : List Ready
arriving =
    record quiet_turn { listener = some (some 2) } ∷ record quiet_turn { event_fd = true } ∷ []

tick-late_example :
    tick (server echoing) (ending ∷ behind ∷ arriving) (serving echoing)
    ≡ tick (server echoing) (ending ∷ arriving) (serving echoing)
unfolding select
tick-late_example =
    tick-late (server echoing) 7 true (received 4 (65 ∷ []) true) ending behind arriving
      (serving echoing) refl refl

pub attending-Courteous : Courteous (hosting attending)
attending-Courteous z (incoming o) w = (tt, (tt, tt))
attending-Courteous z (chunk bs fin) w = (tt, tt)
attending-Courteous z (peer_closed flag) w = tt

server-IsFresh : IsFresh (server attending)
unfolding get
server-IsFresh = record { is_map = (refl, tt); below = λ k le. ground arith }

tick-IsFresh_example :
    Returns
      (tick (server attending) (ending ∷ behind ∷ arriving))
      (serving attending)
      (λ w. IsFresh w.0 × (w.1 ≡ true))
unfolding select
tick-IsFresh_example =
    tick-IsFresh attending-Courteous (server attending) (ending ∷ behind ∷ arriving)
      (serving attending) refl (omega arith) server-IsFresh

-- Stream 0 of the peer, before it is known, and its first chunk.
abbrev pub opening : Ready
opening = record quiet_turn { server_event = some (7, new_bidi 0); event_fd = true }

tick-Hears_example :
    Delivers (server attending) 7 open_conn (opening ∷ []) 0 (65 ∷ []) false (serving attending)
unfolding get select
tick-Hears_example =
    tick-Hears attending-Courteous (server attending) 7 open_conn (opening ∷ [])
      ((7, new_bidi 0) ∷ []) [] 0 (65 ∷ []) false (serving attending) refl (refl, tt)
      ((refl, refl, refl), ((refl, λ e. refl), tt)) refl refl

dispatch-Shows_example :
    Shows attending-Courteous
      (server attending)
      7
      open_conn
      0
      (new_bidi 0)
      (shown_bidi 7 open_conn 0 (4, 5))
      (serving attending)
    × Shows attending-Courteous
        (server attending)
        7
        open_conn
        0
        (new_uni 0)
        (shown_uni 7 open_conn 0 (4, 5))
        (serving attending)
unfolding get
dispatch-Shows_example =
    dispatch-Shows attending-Courteous (server attending) 7 open_conn 0 (serving attending) refl
      refl
