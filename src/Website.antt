-- ===== src/Website.antt =====
-- The table names of src/stationchat/WebsiteIntegrationService.cpp: `QuoteIdentifier`.
pub mod Quoting
pub mod Mirror
mod Examples
use stationapiv.Prelude.{ℕ, List, [], ◌∷◌, ◌++◌, Text, ◌==◌, if◌then◌else◌}

abbrev pub backquote : ℕ
backquote = 96

abbrev pub dot : ℕ
dot = 46

abbrev pub prepend : ℕ → List Text → List Text
prepend c [] = (c ∷ []) ∷ []
prepend c (p ∷ ps) = (c ∷ p) ∷ ps

-- The parts that `find('.', start)` and `substr` cut out, one after the other; one part at least.
unfoldable pub identifier_parts : Text → List Text
identifier_parts [] = [] ∷ []
identifier_parts (c ∷ cs) =
    let ps = identifier_parts cs in if c == dot then [] ∷ ps else prepend c ps

-- The `for` loop over the characters of a part
unfoldable pub escape : Text → Text
escape [] = []
escape (c ∷ cs) = if c == backquote then backquote ∷ backquote ∷ escape cs else c ∷ escape cs

unfoldable pub quote_part : Text → Text
unfolding escape
quote_part part = backquote ∷ escape part ++ backquote ∷ []

-- The `while` loop after the first part
unfoldable pub quote_rest : List Text → Text
quote_rest [] = []
quote_rest (part ∷ parts) = dot ∷ quote_part part ++ quote_rest parts

unfoldable pub quote_parts : List Text → Text
quote_parts [] = []
quote_parts (part ∷ parts) = quote_part part ++ quote_rest parts

unfoldable pub quote_identifier : Text → Text
quote_identifier identifier = quote_parts (identifier_parts identifier)
