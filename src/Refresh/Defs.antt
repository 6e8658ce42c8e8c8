-- ===== src/Refresh/Defs.antt =====
-- The transcription of the registries in scripts/refresh_registry.py. The rows of the CSV are what
-- its reader gives; which character is a decimal digit and which text `ip_network` parses are
-- parameters.
use ssrfguard.Base.{
  ℕ, zero, suc, ◌+◌, ◌-◌, Bool, not, ◌&&◌, ◌||◌, ◌==◌, ltb, List, [], ◌∷◌, ◌++◌, Option, none, some,
  codes, Text, text_eq, starts_with, split_on, take, drop, keep, map, Result, ok, raise, ◌>>=◌,
  if◌then◌else◌,
}
use ssrfguard.Registry.Defs.{Reach, denied, permitted, translated}
use ssrfguard.Refresh.Curated.{
  Entry, additions, metadata, metadata_entry, translated_prefixes, renames,
}
use ssrfguard.Refresh.Texts.{find_text, is_space, count_while, strip, split_words, join, sorted_set}

pub record Python : Type 0 where
  pub is_decimal : ℕ → Bool
  pub is_network : Text → Bool

-- The cells of a row that the generator reads.
pub record Row : Type 0 where
  pub address_block : Text
  pub name : Text
  pub rfc : Text
  pub termination_date : Text
  pub globally_reachable : Text

-- `_verdict` past the translation prefixes
unfoldable pub verdict_by_row : Row → Reach × Text
verdict_by_row row =
    let terminated = strip row.termination_date in
    let reachable = strip row.globally_reachable in
    if not (text_eq terminated (codes "N/A") || text_eq terminated [])
    then (denied, codes "Deprecated allocation; IANA stopped asserting reachability for it.")
    else if text_eq reachable []
    then (denied, codes "Registry asserts nothing for this block; refused rather than assumed.")
    else if starts_with (codes "True") reachable
    then (permitted, [])
    else (denied, [])

-- `_verdict`
unfoldable pub verdict : Row → Text → Reach × Text
verdict row cidr = elim (find_text cidr translated_prefixes) [
  | some note ↦ (translated, note)
  | none ↦ verdict_by_row row
]

-- `name` of a row, without quotes, with single spaces, and renamed
unfoldable pub name_of : Row → Text
name_of row =
    let name = join (codes " ") (split_words (keep (λ c. not (c == 34)) row.name)) in
    elim (find_text name renames) [ none ↦ name | some other ↦ other ]

-- How many characters `\s?` matches.
abbrev pub one_space : Text → ℕ
one_space [] = 0
one_space (c ∷ cs) = if is_space c then 1 else 0

module _ (py : Python) where
  -- How many characters `\s*\[\d+\]` matches at the start of a text; none is no match.
  abbrev pub footnote_length : Text → ℕ
  footnote_length t =
      let spaces = count_while is_space t in
      elim (drop spaces t) [
        | [] ↦ 0
        | c ∷ cs ↦
            let digits = count_while py.is_decimal cs in
            if (c == b'[') && (ltb 0 digits && starts_with (codes "]") (drop digits cs))
            then spaces + digits + 2
            else 0
      ]

  -- `re.sub` of the footnotes by nothing, past a number of characters already matched
  abbrev pub sub_footnotes : ℕ → Text → Text
  sub_footnotes n [] = []
  sub_footnotes (suc n) (c ∷ cs) = sub_footnotes n cs
  sub_footnotes zero (c ∷ cs) = elim (footnote_length (c ∷ cs)) [
    | zero ↦ c ∷ sub_footnotes zero cs
    | suc n ↦ sub_footnotes n cs
  ]

  -- The digits that `RFC\s?(\d+)` finds at the start of a text, with the length of the match.
  abbrev pub rfc_match : Text → Option (Text × ℕ)
  rfc_match t =
      let rest = drop 3 t in
      let spaces = one_space rest in
      let digits = count_while py.is_decimal (drop spaces rest) in
      if starts_with (codes "RFC") t && ltb 0 digits
      then some (take digits (drop spaces rest), 3 + spaces + digits)
      else none

  -- `re.findall`, past a number of characters already matched
  abbrev pub find_rfcs : ℕ → Text → List Text
  find_rfcs n [] = []
  find_rfcs (suc n) (c ∷ cs) = find_rfcs n cs
  find_rfcs zero (c ∷ cs) = elim (rfc_match (c ∷ cs)) [
    | none ↦ find_rfcs zero cs
    | some (digits, n) ↦ digits ∷ find_rfcs (n - 1) cs
  ]

  -- `rfcs` of a row
  unfoldable pub rfcs_of : Row → Text
  rfcs_of row = join (codes ", ") (sorted_set (map (λ n. codes "RFC" ++ n) (find_rfcs 0 row.rfc)))

  -- A block of a cell, without its footnotes.
  unfoldable pub clean : Text → Text
  clean raw = strip (sub_footnotes 0 raw)

  -- The entry for a block of a row.
  abbrev pub entry_of : Row → Text → Entry
  entry_of row cidr =
      let (reach, note) = verdict row cidr in
      record { cidr = cidr; name = name_of row; rfc = rfcs_of row; reach = reach; note = note }

  -- The loop of `_rows` over the blocks of a row; the exception names the row and the block.
  unfoldable pub transcribe_blocks : Row → List Text → Result (Text × Text) (List Entry)
  transcribe_blocks row [] = ok []
  transcribe_blocks row (raw ∷ more) =
      let rest = transcribe_blocks row more in
      let cidr = clean raw in
      if text_eq cidr []
      then rest
      else if py.is_network cidr
      then (rest >>= λ entries. ok (entry_of row cidr ∷ entries))
      else raise (row.name, cidr)

  -- `_rows`, of the rows that are read
  unfoldable pub transcribe : List Row → Result (Text × Text) (List Entry)
  transcribe [] = ok []
  transcribe (row ∷ more) = transcribe_blocks row (split_on b',' row.address_block) >>= λ entries.
      transcribe more >>= λ rest. ok (entries ++ rest)

  -- The entries that `main` renders, in order, of the rows of the two registries
  unfoldable pub all_entries : List Row → List Row → Result (Text × Text) (List Entry)
  all_entries v4_rows v6_rows = do
    v4_entries ← transcribe v4_rows
    v6_entries ← transcribe v6_rows
    ok (v4_entries ++ (v6_entries ++ (additions ++ map metadata_entry metadata)))
