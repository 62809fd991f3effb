-- ===== src/Controller.antt =====
-- `WsController` of src/controler/WsController.h: the endpoints, each with what its `act` returns.
-- The routing and the handshake are the framework's.
use wsgateway.Prelude.{ℕ, List, [], ◌++◌, Option, some, Bytes, codes, insert, bytes_eq}

-- The parameters that go with a connection; a header that is missing is a null string.
abbrev pub Parameters : Type 0
Parameters = List (Bytes × Option Bytes)

abbrev pub client_id_key : Bytes
client_id_key = codes "ClientId"

-- What an endpoint returns: a page, or a handshake with the parameters for the upgrade.
pub data Reply (R : Type 0) : Type 0 where
  page : ℕ → Bytes → Reply R
  upgrade : R → Parameters → Reply R

abbrev page_template : Bytes
page_template =
    codes "<html lang='en'><head><meta charset=utf-8/></head><body>"
    ++ codes "<p>Hello oatpp WebSocket benchmark!</p><p>"
    ++ codes "You may connect WebSocket client on '&lt;host&gt;:&lt;port&gt;/ws'"
    ++ codes "</p></body></html>"

-- GET /
unfoldable pub act_root : {R : Type 0} → Reply R
act_root = page 200 page_template

-- The parameters of GET ws.
unfoldable pub ws1_parameters : Parameters
unfolding insert
ws1_parameters =
    insert (codes "Id") (some (codes "dummy"))
      (insert client_id_key (some (codes "VIN1234567890")) [])

-- The parameters of GET ws/by-id/{ClientId}, from the path and the header X-Client-ID.
unfoldable pub ws_parameters : Bytes → Option Bytes → Parameters
unfolding insert
ws_parameters client id = insert (codes "Id") id (insert client_id_key (some client) [])

-- The two endpoints, with the handshake that the framework makes of the request.
unfoldable pub act_ws1 : {R : Type 0} → R → Reply R
unfolding ws1_parameters
act_ws1 handshake = upgrade handshake ws1_parameters

unfoldable pub act_ws : {R : Type 0} → R → Bytes → Option Bytes → Reply R
unfolding ws_parameters
act_ws handshake client id = upgrade handshake (ws_parameters client id)
