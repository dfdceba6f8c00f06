-- ===== src/Registrar.antt =====
-- The registrar: src/stationchat/StationChatConfig.hpp's cluster of gateways and
-- src/stationchat/RegistrarNode.cpp's choice among them.
pub mod Keys
pub mod Cluster
pub mod Health
pub mod Select
pub mod Entries
pub mod Calm
pub mod Requests
pub mod Life
pub mod Parse
mod Examples
use stationapiv.Prelude.{
  ℕ, zero, suc, ◌+◌, ◌/◌, ◌%◌, ◌++◌, Bool, ◌&&◌, List, [], ◌∷◌, Text, text_eq, ◌==◌, ltb,
  if◌then◌else◌,
}

-- `GatewayClusterEndpoint`; `port` and `weight` are 16-bit.
pub record Endpoint : Type 0 where
  pub address : Text
  pub port : ℕ
  pub weight : ℕ

-- `Matches`
unfoldable pub matches : Endpoint → Text → ℕ → Bool
matches e other_address other_port = text_eq e.address other_address && e.port == other_port

-- What the registrar reads of `StationChatConfig`.
pub record Config : Type 0 where
  pub gateway_address : Text
  pub gateway_port : ℕ
  pub gateway_cluster : List Endpoint

-- The decimal digits of a number of at most `n` digits.
unfoldable pub decimal : ℕ → ℕ → Text
decimal zero v = []
decimal (suc n) v =
    (let front = decimal n (v / 10) in if ltb v 10 then [] else front) ++ (v % 10 + 48) ∷ []

-- `MakeEndpointKey`; a port has at most five digits.
unfoldable pub make_endpoint_key : Text → ℕ → Text
make_endpoint_key address port = address ++ b'#' ∷ decimal 5 port
