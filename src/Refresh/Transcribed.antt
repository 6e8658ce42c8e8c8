-- ===== src/Refresh/Transcribed.antt =====
-- What scripts/refresh_registry.py keeps of the registries.
use ssrfguard.Base.{
  ◌≡◌, refl, subst, ◌⊎◌, inl, inr, true, false, not, List, [], ◌∷◌, ◌++◌, Text, text_eq,
  text_eq_iff, split_on, map, Among, Among-left, Among-right, all, split_and, Bool, sym, All,
  All-append, All-map, All-of_Among, Bool-cases, ok, ok-injective, >>=-eq-ok, arith,
}
use ssrfguard.Registry.Defs.{is_permitted}
use ssrfguard.Refresh.Curated.{Entry, additions, metadata, metadata_entry}
use ssrfguard.Refresh.Defs.{
  Python, Row, clean, entry_of, transcribe_blocks, transcribe, all_entries,
}
use ssrfguard.Refresh.Verdicts.{IsReachable, verdict-IsReachable}

abbrev added_entries : List Entry
added_entries = additions ++ map metadata_entry metadata

module _ (py : Python) where
  -- A block of a row that has an entry of its own, if anything is left of it without its footnotes.
  abbrev pub HasEntry : List Entry → Row → Text → Type 0
  HasEntry entries row raw =
      (clean py raw ≡ [])
      ⊎ (py.is_network (clean py raw) ≡ true) × Among (entry_of py row (clean py raw)) entries

  -- The entry of a block of a row.
  abbrev pub IsOf : Row → List Text → Entry → Type 0
  IsOf row blocks entry = (raw : Text) × Among raw blocks × (entry ≡ entry_of py row (clean py raw))

  -- An entry that the generator adds, and that is not permitted; or that of a block of a row of the
  -- registries, and permitted only if that row says so of the block.
  abbrev pub IsSupported : List Row → Entry → Type 0
  IsSupported rows entry =
      (Among entry added_entries × (is_permitted entry.reach ≡ false))
      ⊎ ((row : Row) × Among row rows
          × IsOf row (split_on b',' row.address_block) entry
          × ((is_permitted entry.reach ≡ false) ⊎ IsReachable row entry.cidr))

  HasEntry-mono :
      (row : Row) (entries wider : List Entry)
      → ((e : Entry) → Among e entries → Among e wider)
      → (raw : Text) → HasEntry entries row raw
      → HasEntry wider row raw
  HasEntry-mono row entries wider widens raw (inl blank) = inl blank
  HasEntry-mono row entries wider widens raw (inr (parsed, there)) =
      inr (parsed, widens (entry_of py row (clean py raw)) there)

  IsSupported-mono :
      (rows wider : List Row)
      → ((r : Row) → Among r rows → Among r wider)
      → (e : Entry) → IsSupported rows e
      → IsSupported wider e
  IsSupported-mono rows wider widens e (inl more) = inl more
  IsSupported-mono rows wider widens e (inr (row, there, of_block, says)) =
      inr (row, widens row there, of_block, says)

  IsOf-IsSupported :
      (row : Row) (entry : Entry)
      → IsOf row (split_on b',' row.address_block) entry
      → IsSupported (row ∷ []) entry
  IsOf-IsSupported row entry (raw, there, same) = inr (
    row,
    inl refl,
    (raw, there, same),
    subst (λ e. (is_permitted e.reach ≡ false) ⊎ IsReachable row e.cidr) (sym same)
        (verdict-IsReachable row (clean py raw)),
  )

  transcribe_blocks-entries :
      (row : Row) (blocks : List Text) (entries : List Entry)
      → transcribe_blocks py row blocks ≡ ok entries
      → All (HasEntry entries row) blocks × All (IsOf row blocks) entries
  unfolding transcribe_blocks
  transcribe_blocks-entries row [] entries h = (tt, subst (All (IsOf row [])) (ok-injective h) tt)
  transcribe_blocks-entries row (raw ∷ more) entries h =
      elim (Bool-cases (text_eq (clean py raw) [])) [
        | inl blank ↦
            let (kept, supported) =
              transcribe_blocks-entries row more entries (rw (transcribe_blocks, blank) at h) in
            (
              (inl ((text_eq_iff (clean py raw) []).0 blank), kept),
              All-map IsOf-more entries supported,
            )
        | inr text ↦ elim (Bool-cases (py.is_network (clean py raw))) [
          | inr strange ↦ absurd (cc (rw (transcribe_blocks, text, strange) at h))
          | inl parsed ↦
              let (rest, rest_ok, made) =
                >>=-eq-ok (transcribe_blocks py row more) _
                  (rw (transcribe_blocks, text, parsed) at h) in
              let (kept, supported) = transcribe_blocks-entries row more rest rest_ok in
              let cidr = clean py raw in
              subst (λ es. All (HasEntry es row) (raw ∷ more) × All (IsOf row (raw ∷ more)) es)
                (ok-injective made)
                (
                  (
                    inr (parsed, inl refl),
                    All-map (HasEntry-mono row rest (entry_of py row cidr ∷ rest) (λ e m. inr m))
                        more kept,
                  ),
                  ((raw, inl refl, refl), All-map IsOf-more rest supported),
                )
        ]
      ]
    where
      IsOf-more : (e : Entry) → IsOf row more e → IsOf row (raw ∷ more) e
      IsOf-more e (block, there, same) = (block, inr there, same)

  -- Of every row every block has its entry.
  abbrev pub IsKept : List Entry → Row → Type 0
  IsKept entries row = All (HasEntry entries row) (split_on b',' row.address_block)

  IsKept-mono :
      (entries wider : List Entry)
      → ((e : Entry) → Among e entries → Among e wider)
      → (row : Row) → IsKept entries row
      → IsKept wider row
  IsKept-mono entries wider widens row kept =
      All-map (HasEntry-mono row entries wider widens) (split_on b',' row.address_block) kept

  transcribe-entries :
      (rows : List Row) (entries : List Entry)
      → transcribe py rows ≡ ok entries
      → All (IsKept entries) rows × All (IsSupported rows) entries
  unfolding transcribe
  transcribe-entries [] entries h = (tt, subst (All (IsSupported [])) (ok-injective h) tt)
  transcribe-entries (row ∷ more) entries h =
      let (mine, mine_ok, h1) =
        >>=-eq-ok (transcribe_blocks py row (split_on b',' row.address_block)) _ h in
      let (rest, rest_ok, made) = >>=-eq-ok (transcribe py more) _ h1 in
      let (kept, supported) =
        transcribe_blocks-entries row (split_on b',' row.address_block) mine mine_ok in
      let (all_kept, all_supported) = transcribe-entries more rest rest_ok in
      subst (λ es. All (IsKept es) (row ∷ more) × All (IsSupported (row ∷ more)) es)
        (ok-injective made)
        (
          (
            IsKept-mono mine (mine ++ rest) (Among-left mine rest) row kept,
            All-map (IsKept-mono rest (mine ++ rest) (Among-right mine rest)) more all_kept,
          ),
          All-append (IsSupported (row ∷ more)) mine rest
              (All-map
                (IsSupported-mono (row ∷ []) (row ∷ more)
                  (λ r m. elim m [ inl same ↦ inl same | inr none_left ↦ absurd (none_left tt) ]))
                mine (All-map (IsOf-IsSupported row) mine supported))
              (All-map (IsSupported-mono more (row ∷ more) (λ r m. inr m)) rest all_supported),
        )

-- What the generator renders, of the rows of the two registries.
pub record IsTranscribed (py : Python) (rows : List Row) (entries : List Entry) : Type 0 where
  pub kept : All (IsKept py entries) rows
  pub supported : All (IsSupported py rows) entries
  pub added : All (λ e. Among e entries) (additions ++ map metadata_entry metadata)

all-Among :
    {A : Type 0} (p : A → Bool) (xs : List A) → all p xs ≡ true → (x : A) → Among x xs → p x ≡ true
all-Among p [] h x m = absurd (m tt)
all-Among p (y ∷ ys) h x m =
    let (here, later) = split_and (p y) (all p ys) h in
    elim m [ inl same ↦ rw same here | inr there ↦ all-Among p ys later x there ]

added-denied : (e : Entry) → Among e added_entries → is_permitted e.reach ≡ false
added-denied e m =
    let denies = all-Among (λ x. not (is_permitted x.reach)) added_entries refl e m in ground arith

-- Where the generator does not stop at a block that is no network, none is dropped: each block of
-- each row of both registries has an entry of its own. Every entry is that of a block of a row, or
-- one that the generator adds, and all of these are there. None that is added is permitted, and
-- that of a block only if its own row says that it is reachable and has no termination date, and the
-- block is none of the prefixes that carry an address.
pub all_entries-IsTranscribed :
    (py : Python) (v4_rows v6_rows : List Row) (entries : List Entry)
    → all_entries py v4_rows v6_rows ≡ ok entries
    → IsTranscribed py (v4_rows ++ v6_rows) entries
unfolding all_entries
all_entries-IsTranscribed py v4_rows v6_rows entries h =
    let (first, first_ok, h1) = >>=-eq-ok (transcribe py v4_rows) _ h in
    let (second, second_ok, made) = >>=-eq-ok (transcribe py v6_rows) _ h1 in
    let (kept4, supported4) = transcribe-entries py v4_rows first first_ok in
    let (kept6, supported6) = transcribe-entries py v6_rows second second_ok in
    let rows = v4_rows ++ v6_rows in
    let rest = second ++ added_entries in
    let outer = Among-right first rest in
    subst (IsTranscribed py rows) (ok-injective made) (record {
      kept =
          All-append (IsKept py (first ++ rest)) v4_rows v6_rows
            (All-map (IsKept-mono py first (first ++ rest) (Among-left first rest)) v4_rows kept4)
            (All-map
              (IsKept-mono py second (first ++ rest)
                (λ e m. outer e (Among-left second added_entries e m)))
              v6_rows kept6);
      supported =
          All-append (IsSupported py rows) first rest
            (All-map (IsSupported-mono py v4_rows rows (Among-left v4_rows v6_rows)) first
              supported4)
            (All-append (IsSupported py rows) second added_entries
              (All-map (IsSupported-mono py v6_rows rows (Among-right v4_rows v6_rows)) second
                supported6)
              (All-of_Among (IsSupported py rows) added_entries
                (λ e m. inl (m, added-denied e m))));
      added =
          All-of_Among (λ e. Among e (first ++ rest)) added_entries
            (λ e m. outer e (Among-right second added_entries e m));
    })
