-- ===== src/Protocol/Examples.antt =====
-- A request as a client writes it.
use stationapiv.Prelude.{◌≡◌, [], ◌∷◌, some, arith}
use stationapiv.Protocol.Formats.{encode}
use stationapiv.Protocol.Formats.Avatars.{logout_avatar_fields}
use stationapiv.Enums.RequestType.{request_code}
use stationapiv.Protocol.Dispatch.{known, logout_avatar, read_incoming}
use stationapiv.Protocol.Dispatch.RoundTrip.{request_fields, read_incoming-request_fields}

read_incoming-request_fields_example :
    let q : stationapiv.Protocol.Dispatch.Request =
      logout_avatar (record { track = 7; avatar_id = 100 }) in
    read_incoming (encode (request_fields q) (9 ∷ [])) ≡ some (known q, 9 ∷ [])
unfolding request_fields logout_avatar_fields request_code
read_incoming-request_fields_example =
    read_incoming-request_fields (logout_avatar (record { track = 7; avatar_id = 100 })) (9 ∷ [])
      (ground arith)
