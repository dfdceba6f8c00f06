-- ===== src/Registrar/Parse/Examples.antt =====
-- Entries of gateway_cluster, parsed.
use stationapiv.Prelude.{◌≡◌, refl, Text, codes, arith}
use stationapiv.Registrar.{Endpoint}
use stationapiv.Registrar.Parse.{
  parsed, refused, port_out_of_range, split_at, digits, stoul, number, split_address, parse_port,
  parse_weight, parse_numbers, parse_gateway_cluster_endpoint,
}
use stationapiv.Registrar.Parse.Bounds.{IsUsable, parse_gateway_cluster_endpoint-IsUsable}
use stationapiv.Registrar.Parse.RoundTrip.{printed, parse-printed}

-- No blank at either end
abbrev untrimmed : Text → Text
untrimmed t = t

abbrev lobby : Endpoint
lobby = record { address = codes "host"; port = 5001; weight = 3 }

abbrev local_host : Endpoint
local_host = record { address = codes "::1"; port = 5001; weight = 1 }

too_high : parse_gateway_cluster_endpoint untrimmed (codes "host:65536") ≡ refused port_out_of_range
unfolding parse_gateway_cluster_endpoint split_address split_at parse_numbers parse_port number
    stoul digits
too_high = refl

-- The number is cut to 32 bits before it is tested.
cut_port :
    parse_gateway_cluster_endpoint untrimmed (codes "host:4294967297")
    ≡ parsed (record { address = codes "host"; port = 1; weight = 1 })
unfolding parse_gateway_cluster_endpoint split_address split_at parse_numbers parse_port number
    stoul digits
cut_port = refl

lobby-IsUsable : IsUsable lobby
lobby-IsUsable = ground arith

parse_gateway_cluster_endpoint-IsUsable_example : IsUsable lobby
unfolding parse_gateway_cluster_endpoint split_address split_at parse_numbers parse_port
    parse_weight number stoul digits
parse_gateway_cluster_endpoint-IsUsable_example =
    parse_gateway_cluster_endpoint-IsUsable untrimmed (codes "host:5001:3") lobby refl

parse-printed_example : parse_gateway_cluster_endpoint untrimmed (printed lobby) ≡ parsed lobby
parse-printed_example = parse-printed untrimmed lobby lobby-IsUsable (ground arith) refl
