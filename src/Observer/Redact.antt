-- ===== src/Observer/Redact.antt =====
-- `redacted` of src/ssrfguard/_observer.py: credentials in a reported URL.
use ssrfguard.Base.{
  ℕ, ◌≡◌, refl, Bool, true, false, ◌&&◌, ◌==◌, [], ◌∷◌, ◌++◌, Text, codes, has_char, partition,
  if◌then◌else◌,
}

-- `text.partition("//")`
pub record Cut : Type 0 where
  pub before : Text
  pub found : Bool
  pub after : Text

unfoldable pub partition_slashes : Text → Cut
partition_slashes [] = record { before = []; found = false; after = [] }
partition_slashes (c ∷ []) = record { before = c ∷ []; found = false; after = [] }
partition_slashes (c ∷ (d ∷ ds)) =
    let rest = partition_slashes (d ∷ ds) in
    if c == b'/' && d == b'/'
    then record { before = []; found = true; after = ds }
    else record rest { before = c ∷ rest.before }

-- `text.rpartition(c)[2]`: what stands after the last `c`, the whole text when there is none
unfoldable pub after_last : ℕ → Text → Text
after_last c [] = []
after_last c (x ∷ xs) = if has_char c xs then after_last c xs else if x == c then xs else x ∷ xs

abbrev pub redaction : Text
redaction = codes "[redacted]"

abbrev pub slashes : Text
slashes = codes "//"

abbrev pub slash_if : Bool → Text
slash_if true = codes "/"
slash_if false = []

unfoldable pub redacted : Text → Text
unfolding partition_slashes after_last partition
redacted url =
    let cut = partition_slashes url in
    let p = partition b'/' cut.after in
    if cut.found
    then if has_char b'@' p.before
      then cut.before
        ++ (slashes
            ++ (redaction ++ (b'@' ∷ after_last b'@' p.before ++ (slash_if p.found ++ p.after))))
      else url
    else url

hidden : redacted (codes "http://user:pw@host/a@b") ≡ codes "http://[redacted]@host/a@b"
unfolding redacted
hidden = refl
