-- ===== src/Website/Examples.antt =====
-- Table names, quoted.
use stationapiv.Prelude.{◌≡◌, refl, [], ◌∷◌, some, codes}
use stationapiv.Website.{
  identifier_parts, escape, quote_part, quote_rest, quote_parts, quote_identifier,
}
use stationapiv.Website.Quoting.{opening, unquote, unquote-quote_identifier}

qualified : quote_identifier (codes "web.mail") ≡ codes "`web`.`mail`"
unfolding quote_identifier quote_parts quote_rest quote_part escape identifier_parts
qualified = refl

unquote-quote_identifier_example :
    unquote opening (quote_identifier (codes "a`b.c")) ≡ some (codes "a`b" ∷ codes "c" ∷ [])
unfolding identifier_parts
unquote-quote_identifier_example = unquote-quote_identifier (codes "a`b.c")
