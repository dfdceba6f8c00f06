-- ===== src/Website/Quoting.antt =====
-- How a database reads a quoted table name, and that it reads the parts of the identifier, whatever
-- characters they hold.
use stationapiv.Prelude.{
  ◌≡◌, refl, sym, ap, ◌∙◌, ◌++◌, append_assoc, append-nil, List, [], ◌∷◌, Option, none, some, Text,
  Bool-cases, inl, inr, ◌==◌, if◌then◌else◌, arith,
}
use stationapiv.Website.{
  backquote, dot, identifier_parts, escape, quote_part, quote_rest, quote_parts, quote_identifier,
}

-- Where a reader of a qualified name stands: before an opening backquote, inside, or after a
-- backquote that closes the part unless another one follows.
pub data Place : Type 0 where
  opening : Place
  inside closed : Text → Place

abbrev pub after_part : Text → Option (List Text) → Option (List Text)
after_part a none = none
after_part a (some ps) = some (a ∷ ps)

-- The parts of a quoted name, `none` where the text is no such name.
unfoldable pub unquote : Place → Text → Option (List Text)
unquote opening [] = none
unquote (inside a) [] = none
unquote (closed a) [] = some (a ∷ [])
unquote opening (c ∷ cs) =
    let part = unquote (inside []) cs in if c == backquote then part else none
unquote (inside a) (c ∷ cs) =
    let end = unquote (closed a) cs in
    let more = unquote (inside (a ++ c ∷ [])) cs in if c == backquote then end else more
unquote (closed a) (c ∷ cs) =
    let more = unquote (inside (a ++ backquote ∷ [])) cs in
    let next = unquote opening cs in
    if c == backquote then more else if c == dot then after_part a next else none

unquote-escape :
    (a part rest : Text)
    → unquote (inside a) (escape part ++ backquote ∷ rest) ≡ unquote (closed (a ++ part)) rest
unfolding unquote escape
unquote-escape a [] rest = ap (λ x. unquote (closed x) rest) (sym (append-nil a))
unquote-escape a (c ∷ part) rest =
    ground (arith, unquote-escape (a ++ c ∷ []) part rest, append_assoc a (c ∷ []) part)

unquote-quote_part :
    (part rest : Text) → unquote opening (quote_part part ++ rest) ≡ unquote (closed part) rest
unfolding unquote quote_part
unquote-quote_part part rest =
    rw (append_assoc (escape part) (backquote ∷ []) rest) (unquote-escape [] part rest)

unquote-quote_rest :
    (part : Text) (parts : List Text)
    → unquote (closed part) (quote_rest parts) ≡ some (part ∷ parts)
unfolding unquote quote_rest
unquote-quote_rest part [] = refl
unquote-quote_rest part (next ∷ parts) =
    ap (after_part part)
      (unquote-quote_part next (quote_rest parts) ∙ unquote-quote_rest next parts)

identifier_parts_nonempty :
    (s : Text) → (p : Text) × (ps : List Text) × (identifier_parts s ≡ p ∷ ps)
unfolding identifier_parts
identifier_parts_nonempty [] = ([], [], refl)
identifier_parts_nonempty (c ∷ cs) =
    let (p, ps, e) = identifier_parts_nonempty cs in
    elim (Bool-cases (c == dot)) [
      | inl d ↦ ([], identifier_parts cs, rw d refl)
      | inr d ↦ (c ∷ p, ps, rw (d, e) refl)
    ]

-- Whatever the identifier, its quoted form is read as the parts between its dots, and as nothing
-- more: no backquote in it ends a part.
pub unquote-quote_identifier :
    (identifier : Text)
    → unquote opening (quote_identifier identifier) ≡ some (identifier_parts identifier)
unfolding quote_identifier quote_parts
unquote-quote_identifier identifier =
    let (p, ps, e) = identifier_parts_nonempty identifier in
    rw e (unquote-quote_part p (quote_rest ps) ∙ unquote-quote_rest p ps)

join_rest : List Text → Text
join_rest [] = []
join_rest (p ∷ ps) = dot ∷ p ++ join_rest ps

joined : List Text → Text
unfolding join_rest
joined [] = []
joined (p ∷ ps) = p ++ join_rest ps

joined-identifier_parts : (s : Text) → joined (identifier_parts s) ≡ s
unfolding joined join_rest identifier_parts
joined-identifier_parts [] = refl
joined-identifier_parts (c ∷ cs) =
    let (p, ps, e) = identifier_parts_nonempty cs in
    let whole : p ++ join_rest ps ≡ cs = ap joined (sym e) ∙ joined-identifier_parts cs in
    rw e (ground (arith, whole))

-- Two identifiers with the same quoted form are the same.
quote_identifier_injective : (a b : Text) → quote_identifier a ≡ quote_identifier b → a ≡ b
quote_identifier_injective a b h =
    let same : some (identifier_parts a) ≡ some (identifier_parts b) =
      sym (unquote-quote_identifier a) ∙ ap (unquote opening) h ∙ unquote-quote_identifier b in
    let same_parts : identifier_parts a ≡ identifier_parts b = cc in
    sym (joined-identifier_parts a) ∙ ap joined same_parts ∙ joined-identifier_parts b
