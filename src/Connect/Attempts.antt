-- ===== src/Connect/Attempts.antt =====
-- The failover loop of src/ssrfguard/_connect.py: its calls, attempt by attempt, and how it ends.
use ssrfguard.Base.{
  ℕ, ◌≡◌, refl, sym, ap, subst, ◌∙◌, ◌⊎◌, inl, inr, Bool, true, false, ◌&&◌, List, [], ◌∷◌, ◌++◌,
  Option, none, some, Result, ok, raise, Bool-cases,
}
use mathlib.Core.List.{append_assoc, append-nil}
use ssrfguard.Errors.{Exception}
use ssrfguard.Resolve.Defs.{Address}
use ssrfguard.Connect.Kernel.{Trace, Kernel, World}
use ssrfguard.Connect.Defs.{
  Settings, open_to, is_os_error, is_timeout, Ending, connected, passed_on, all_failed, try_each,
}
use ssrfguard.Connect.Traces.{IsAttempt, socket_of, open_to-IsAttempt}

-- The calls of the loop: attempts at the addresses in their order, each of which but the last
-- leaves no socket open.
unfoldable pub IsRun : List Address → Option ℕ → Trace → Type 0
IsRun [] left seg = (left ≡ none) × (seg ≡ [])
IsRun (a ∷ more) left seg =
    IsAttempt a left seg
    ⊎ ((first : Trace) × (rest : Trace) × IsAttempt a none first
        × IsRun more left rest
        × (seg ≡ first ++ rest))

abbrev pub left_of : Ending → Option ℕ
left_of (connected sock) = some sock
left_of (passed_on _) = none
left_of (all_failed _ _) = none

abbrev pub Failures : Type 0
Failures = List (Address × Exception)

pub Tried-cases :
    (x : Result Exception ℕ) → ((sock : ℕ) × (x ≡ ok sock)) ⊎ ((e : Exception) × (x ≡ raise e))
Tried-cases (ok sock) = inl (sock, refl)
Tried-cases (raise e) = inr (e, refl)

module _ (k : Kernel) (s : Settings) where
  module _ (a : Address) (more : List Address) (failures : Failures) (only : Bool) (w : World) where
    pub try_each-connected :
        {sock : ℕ}
        → (open_to k s a w).0 ≡ ok sock
        → try_each k s (a ∷ more) failures only w ≡ (connected sock, (open_to k s a w).1)
    unfolding try_each
    try_each-connected e = rw (try_each, e) refl

    pub try_each-passed_on :
        {e : Exception}
        → (open_to k s a w).0 ≡ raise e
        → is_os_error e ≡ false
        → try_each k s (a ∷ more) failures only w ≡ (passed_on e, (open_to k s a w).1)
    unfolding try_each
    try_each-passed_on e n = rw (try_each, e, n) refl

    pub try_each-next :
        {e : Exception}
        → (open_to k s a w).0 ≡ raise e
        → is_os_error e ≡ true
        → try_each k s (a ∷ more) failures only w
          ≡ try_each k s more (failures ++ (a, e) ∷ []) (only && is_timeout e) (open_to k s a w).1
    unfolding try_each
    try_each-next e y = rw (try_each, e, y) refl

  abbrev pub HasRun : List Address → Trace → Ending × World → Type 0
  HasRun addresses trace (ending, w) =
      (seg : Trace) × (w.trace ≡ trace ++ seg) × IsRun addresses (left_of ending) seg

  try_each-HasRun :
      (addresses : List Address) (failures : Failures) (only : Bool) (w : World)
      → HasRun addresses w.trace (try_each k s addresses failures only w)
  unfolding try_each IsRun
  try_each-HasRun [] failures only w = ([], simp append-nil, (refl, refl))
  try_each-HasRun (a ∷ more) failures only w =
      let (seg, h, attempt) = open_to-IsAttempt k s a w in
      let moved : Result Exception ℕ → Type 0 = λ r. IsAttempt a (socket_of r) seg in
      elim (Tried-cases (open_to k s a w).0) [
        | inl (sock, e) ↦
            subst (HasRun (a ∷ more) w.trace) (sym (try_each-connected a more failures only w e))
              (seg, h, inl (subst moved e attempt))
        | inr (e, r) ↦ elim (Bool-cases (is_os_error e)) [
          | inr n ↦
              subst (HasRun (a ∷ more) w.trace)
                (sym (try_each-passed_on a more failures only w r n))
                (seg, h, inl (subst moved r attempt))
          | inl y ↦
              let (rest, later, run) =
                try_each-HasRun more (failures ++ (a, e) ∷ []) (only && is_timeout e)
                  (open_to k s a w).1 in
              subst (HasRun (a ∷ more) w.trace) (sym (try_each-next a more failures only w r y)) (
                seg ++ rest,
                later ∙ ap (λ t. t ++ rest) h ∙ append_assoc w.trace seg rest,
                inr (seg, rest, subst moved r attempt, run, refl),
              )
        ]
      ]

  pub try_each-IsRun :
      (addresses : List Address) (failures : Failures) (only : Bool) (w : World)
      → (seg : Trace) × ((try_each k s addresses failures only w).1.trace ≡ w.trace ++ seg)
        × IsRun addresses (left_of (try_each k s addresses failures only w).0) seg
  try_each-IsRun addresses failures only w = try_each-HasRun addresses failures only w
