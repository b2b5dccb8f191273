-- ===== src/Websocket/Tests.antt =====
-- Two sockets of a user, one of which goes.
use async_fastapi_template.Prelude.{◌≡◌, List, [], ◌∷◌}
use async_fastapi_template.Websocket.{contains, sockets}
use async_fastapi_template.Websocket.History.{
  Action, connected, disconnected, reaped, performed, is_live, performed-sockets,
}

abbrev history : List Action
history = reaped (4 ∷ []) 8 ∷ disconnected 3 7 ∷ connected 4 7 ∷ connected 3 7 ∷ []

performed-sockets_example : contains 4 (sockets 7 (performed history)) ≡ is_live 4 7 history
performed-sockets_example = performed-sockets 4 7 history
