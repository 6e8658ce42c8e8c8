-- ===== src/Refresh/Verdicts.antt =====
-- When scripts/refresh_registry.py lets a block be permitted.
use ssrfguard.Base.{
  ◌≡◌, refl, ◌⊎◌, inl, inr, true, false, ◌||◌, [], none, codes, Text, text_eq, text_eq_iff,
  Option-cases, starts_with, Bool-cases,
}
use ssrfguard.Registry.Defs.{is_permitted}
use ssrfguard.Refresh.Curated.{translated_prefixes}
use ssrfguard.Refresh.Texts.{find_text, strip}
use ssrfguard.Refresh.Defs.{Row, verdict_by_row, verdict}

-- What a row must say for one of its blocks to be permitted: it has no termination date, it says that
-- the block is reachable, and the block is none of the prefixes that carry an address.
pub record IsReachable (row : Row) (cidr : Text) : Type 0 where
  pub not_translated : find_text cidr translated_prefixes ≡ none
  pub not_terminated :
      (strip row.termination_date ≡ codes "N/A") ⊎ (strip row.termination_date ≡ [])
  pub asserted : starts_with (codes "True") (strip row.globally_reachable) ≡ true

verdict_by_row-cases :
    (row : Row)
    → (is_permitted (verdict_by_row row).0 ≡ false)
      ⊎ ((text_eq (strip row.termination_date) (codes "N/A")
            || text_eq (strip row.termination_date) [])
          ≡ true)
        × (starts_with (codes "True") (strip row.globally_reachable) ≡ true)
unfolding verdict_by_row
verdict_by_row-cases row =
    elim (Bool-cases (
      text_eq (strip row.termination_date) (codes "N/A")
      || text_eq (strip row.termination_date) [])) [
        | inr ended ↦ inl (rw (verdict_by_row, ended) refl)
        | inl lasts ↦ elim (Bool-cases (text_eq (strip row.globally_reachable) [])) [
          | inl silent ↦ inl (rw (verdict_by_row, lasts, silent) refl)
          | inr says ↦
              elim (Bool-cases (starts_with (codes "True") (strip row.globally_reachable))) [
                | inl says_so ↦ inr (lasts, says_so)
                | inr denies ↦ inl (rw (verdict_by_row, lasts, says, denies) refl)
              ]
        ]
      ]

lasting :
    (t : Text) → (text_eq t (codes "N/A") || text_eq t []) ≡ true → (t ≡ codes "N/A") ⊎ (t ≡ [])
lasting t h = elim (Bool-cases (text_eq t (codes "N/A"))) [
  | inl same ↦ inl ((text_eq_iff t (codes "N/A")).0 same)
  | inr other ↦ inr ((text_eq_iff t []).0 (rw other at h))
]

pub verdict-IsReachable :
    (row : Row) (cidr : Text) → (is_permitted (verdict row cidr).0 ≡ false) ⊎ IsReachable row cidr
unfolding verdict
verdict-IsReachable row cidr = elim (Option-cases (find_text cidr translated_prefixes)) [
  | inr (note, carries) ↦ inl (rw (verdict, carries) refl)
  | inl plain ↦ elim (verdict_by_row-cases row) [
    | inl refuses ↦ inl (rw (verdict, plain) refuses)
    | inr (lasts, says) ↦ inr (record {
      not_translated = plain;
      not_terminated = lasting (strip row.termination_date) lasts;
      asserted = says;
    })
  ]
]
