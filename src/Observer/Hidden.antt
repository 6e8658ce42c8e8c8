-- ===== src/Observer/Hidden.antt =====
-- What `redacted` of src/ssrfguard/_observer.py hides.
use ssrfguard.Base.{
  ℕ, ◌≡◌, ◌≢◌, refl, sym, ap, ◌∙◌, true, false, ◌==◌, [], ◌∷◌, ◌++◌, Text, has_char, partition,
  Partition, arith,
}
use ssrfguard.Observer.Redact.{
  Cut, partition_slashes, after_last, redaction, slashes, slash_if, redacted,
}

abbrev put_cut : ℕ → Cut → Cut
put_cut c p = record p { before = c ∷ p.before }

abbrev put_partition : ℕ → Partition → Partition
put_partition c p = record p { before = c ∷ p.before }

partition_slashes-cons :
    (c : ℕ) (t : Text)
    → (c == b'/') ≡ false
    → t ≢ []
    → partition_slashes (c ∷ t)
      ≡ record (partition_slashes t) { before = c ∷ (partition_slashes t).before }
unfolding partition_slashes
partition_slashes-cons c [] h k = absurd (k refl)
partition_slashes-cons c (d ∷ ds) h k = rw h refl

append_slashes-nonempty : (s x : Text) → s ++ (b'/' ∷ (b'/' ∷ x)) ≢ []
append_slashes-nonempty [] x h = absurd (cc)
append_slashes-nonempty (c ∷ s) x h = absurd (cc)

partition_slashes-append :
    (s x : Text)
    → has_char b'/' s ≡ false
    → partition_slashes (s ++ (b'/' ∷ (b'/' ∷ x))) ≡ record { before = s; found = true; after = x }
unfolding partition_slashes
partition_slashes-append [] x h = refl
partition_slashes-append (c ∷ s) x h =
    let here : (c == b'/') ≡ false = ground arith in
    let later : has_char b'/' s ≡ false = ground arith in
    partition_slashes-cons c (s ++ (b'/' ∷ (b'/' ∷ x))) here (append_slashes-nonempty s x)
    ∙ ap (put_cut c) (partition_slashes-append s x later)

partition-append :
    (u t : Text)
    → has_char b'/' u ≡ false
    → partition b'/' (u ++ t)
      ≡ record (partition b'/' t) { before = u ++ (partition b'/' t).before }
unfolding partition
partition-append [] t h = refl
partition-append (c ∷ u) t h =
    let here : (c == b'/') ≡ false = ground arith in
    let later : has_char b'/' u ≡ false = ground arith in
    rw here (ap (put_partition c) (partition-append u t later))

has_at : (u w : Text) → has_char b'@' (u ++ b'@' ∷ w) ≡ true
has_at [] w = refl
has_at (c ∷ u) w = ground (arith, has_at u w)

after_last-append : (u w : Text) → after_last b'@' (u ++ b'@' ∷ w) ≡ after_last b'@' (b'@' ∷ w)
unfolding after_last
after_last-append [] w = refl
after_last-append (c ∷ u) w = rw (has_at u w) (after_last-append u w)

-- The redaction of a URL with credentials, without them.
shown : Text → Text → Text
shown scheme rest =
    let p = partition b'/' (b'@' ∷ rest) in
    scheme
    ++ (slashes
        ++ (redaction ++ (b'@' ∷ after_last b'@' p.before ++ (slash_if p.found ++ p.after))))

redacted-shown :
    (scheme credentials rest : Text)
    → has_char b'/' scheme ≡ false
    → has_char b'/' credentials ≡ false
    → redacted (scheme ++ (b'/' ∷ (b'/' ∷ (credentials ++ b'@' ∷ rest)))) ≡ shown scheme rest
unfolding redacted shown partition
redacted-shown scheme credentials rest h k =
    rw
      (
        redacted,
        partition_slashes-append scheme (credentials ++ b'@' ∷ rest) h,
        partition-append credentials (b'@' ∷ rest) k,
        has_at credentials (partition b'/' rest).before,
        after_last-append credentials (partition b'/' rest).before,
      )
      refl

-- What is reported of a URL with credentials does not depend on them: for any two that hold no
-- slash, with the same scheme and the same text after the `@`, the redacted URLs are the same.
pub redacted_private :
    (scheme credentials others rest : Text)
    → has_char b'/' scheme ≡ false
    → has_char b'/' credentials ≡ false
    → has_char b'/' others ≡ false
    → redacted (scheme ++ (b'/' ∷ (b'/' ∷ (credentials ++ b'@' ∷ rest))))
      ≡ redacted (scheme ++ (b'/' ∷ (b'/' ∷ (others ++ b'@' ∷ rest))))
redacted_private scheme credentials others rest h k l =
    redacted-shown scheme credentials rest h k ∙ sym (redacted-shown scheme others rest h l)
