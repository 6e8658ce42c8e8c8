-- ===== src/Refresh/Emit.antt =====
-- The rendering of the table in scripts/refresh_registry.py. `repr` of a text and `textwrap.wrap` to 88
-- characters are parameters.
use ssrfguard.Base.{ℕ, ◌-◌, List, [], ◌∷◌, ◌++◌, codes, Text, length, take, map}
use ssrfguard.Registry.Defs.{Reach, denied, permitted, translated}
use ssrfguard.Refresh.Curated.{Entry}
use ssrfguard.Refresh.Texts.{join, rstrip_spaces}

pub record Printer : Type 0 where
  pub repr : Text → Text
  pub wrap : Text → List Text

-- The name of a member of `Reach`.
abbrev pub reach_name : Reach → Text
reach_name denied = codes "DENIED"
reach_name permitted = codes "PERMITTED"
reach_name translated = codes "TRANSLATED"

-- `text[:-n]`
abbrev pub without_last : ℕ → Text → Text
without_last n t = take (length t - n) t

module _ (out : Printer) where
  abbrev pub parts : Entry → Text
  parts e = join (codes ", ") (
      out.repr e.cidr
      ∷ (out.repr e.name ∷ (out.repr e.rfc ∷ ((codes "Reach." ++ reach_name e.reach) ∷ []))))

  -- A note, as literals that stand one after the other.
  abbrev pub wrapped : Text → Text
  wrapped note =
      let lines =
        join (10 ∷ [])
          (map (λ line. codes "        \"" ++ (line ++ codes " \"")) (out.wrap note)) in
      without_last 2 (rstrip_spaces lines) ++ codes "\""

  unfoldable pub emit_entry : Entry → Text
  emit_entry e = elim e.note [
    | [] ↦ codes "    _b(" ++ (parts e ++ codes "),")
    | c ∷ cs ↦
        codes "    _b("
        ++ (10
            ∷ (codes "        "
                ++ (parts e
                    ++ (codes ","
                        ++ (10 ∷ (wrapped (c ∷ cs) ++ (codes "," ++ (10 ∷ codes "    ),"))))))))
  ]

  -- `_emit`
  unfoldable pub emit : List Entry → Text
  emit entries = join (10 ∷ []) (map emit_entry entries)
