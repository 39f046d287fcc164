-- ===== src/Discord/Fences/Parts.antt =====
-- The lines of a code fence that `code_fence_parts` in crates/chudbot-discord/src/lib.rs takes apart.
use chudbot.Common.{
  true, false, ◌≡◌, refl, ap, inl, inr, some, List, [], ◌∷◌, ◌++◌, All, Text, concat, Bool-cases,
  Option-cases, eq_of_some,
}
use chudbot.Discord.Markdown.{
  CodeFenceMarker, lines, trim_line_ending, code_fence_marker, closes, body_until, parts_of_lines,
  code_fence_parts,
}

-- The first of the lines, if there is one, closes the fence.
abbrev pub IsClosedBy : CodeFenceMarker → List Text → Type 0
IsClosedBy marker [] = Unit
IsClosedBy marker (line ∷ _) = closes marker (trim_line_ending line) ≡ true

pub record IsFence (opening body : Text) (marker : CodeFenceMarker) (all_lines : List Text)
    : Type 0 where
  pub body_lines : List Text
  pub others : List Text
  pub cut : all_lines ≡ opening ∷ body_lines ++ others
  pub opens : code_fence_marker (trim_line_ending opening) ≡ some marker
  pub joined : body ≡ concat body_lines
  pub within : All (λ line. closes marker (trim_line_ending line) ≡ false) body_lines
  pub closed : IsClosedBy marker others

-- The body is the lines before the first that closes the fence.
body_until-Until :
    (marker : CodeFenceMarker) (rest : List Text)
    → (body_lines others : List Text) × (rest ≡ body_lines ++ others)
      × (body_until marker rest ≡ concat body_lines)
      × All (λ line. closes marker (trim_line_ending line) ≡ false) body_lines
      × IsClosedBy marker others
unfolding body_until
body_until-Until marker [] = ([], [], refl, refl, tt, tt)
body_until-Until marker (line ∷ rest) = elim (Bool-cases (closes marker (trim_line_ending line))) [
  | inl e ↦ ([], line ∷ rest, refl, rw (e) refl, tt, e)
  | inr e ↦
      (let (body_lines, others, cut, body, within, closed) = body_until-Until marker rest in
        (line ∷ body_lines, others, ap (λ l. line ∷ l) cut, rw (e, body) refl, (e, within), closed))
]

pub code_fence_parts-IsFence :
    (segment opening body : Text) (marker : CodeFenceMarker)
    → code_fence_parts segment ≡ some (opening, body, marker)
    → IsFence opening body marker (lines segment)
unfolding code_fence_parts
code_fence_parts-IsFence segment opening body marker h = of_lines (lines segment) h
  where
    of_lines :
        (ls : List Text)
        → parts_of_lines ls ≡ some (opening, body, marker)
        → IsFence opening body marker ls
    of_lines [] e = cc
    of_lines (first ∷ rest) e = elim (Option-cases (code_fence_marker (trim_line_ending first))) [
      | inl gone ↦ cc (rw (parts_of_lines, gone) at e)
      | inr (found, opens) ↦
          (let (body_lines, others, cut, taken, within, closed) = body_until-Until found rest in
            let same : (first, body_until found rest, found) ≡ (opening, body, marker) =
              eq_of_some (rw (parts_of_lines, opens) at e) in
            rw (← ap (λ p. p.0) same, ← ap (λ p. p.1) same, ← ap (λ p. p.2) same)
              (record {
                body_lines = body_lines;
                others = others;
                cut = ap (λ l. first ∷ l) cut;
                opens = opens;
                joined = taken;
                within = within;
                closed = closed;
              }))
    ]
