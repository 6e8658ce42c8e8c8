-- ===== src/Connect/Told.antt =====
-- The failover of src/ssrfguard/_connect.py: the socket it ends with, or the failures it ends with.
use ssrfguard.Base.{
  ◌≡◌, refl, sym, ap, subst, ◌∙◌, inl, inr, Bool, true, false, ◌&&◌, List, [], ◌∷◌, ◌++◌, map, all,
  Among, Bool-cases, arith,
}
use mathlib.Core.List.{append_assoc, append-nil}
use ssrfguard.Errors.{Exception}
use ssrfguard.Resolve.Defs.{Address}
use ssrfguard.Connect.Kernel.{Trace, Kernel, World}
use ssrfguard.Connect.Defs.{
  Settings, open_to, is_os_error, is_timeout, Ending, connected, passed_on, all_failed, try_each,
}
use ssrfguard.Connect.Traces.{open_to-IsAttempt}
use ssrfguard.Connect.Attempts.{
  Failures, Tried-cases, try_each-connected, try_each-passed_on, try_each-next,
}
use ssrfguard.Connect.Peer.{IsPeer, IsPeer-later, open_to-IsPeer}

-- How the loop ended, in terms of its attempts.
unfoldable pub Told : Kernel → Trace → List Address → Failures → Bool → Ending × World → Type 0
Told k before addresses failures only (connected sock, w) =
    (a : Address) × Among a addresses × IsPeer k before w.trace sock a
Told k before addresses failures only (passed_on e, w) = is_os_error e ≡ false
Told k before addresses failures only (all_failed all_of told, w) =
    (later : Failures) × (all_of ≡ failures ++ later)
    × (map (λ f. f.0) later ≡ addresses)
    × (all (λ f. is_os_error f.1) later ≡ true)
    × (told ≡ (only && all (λ f. is_timeout f.1) later))

Told-next :
    (k : Kernel) (before seg : Trace) (a : Address) (e : Exception) (more : List Address)
    (failures : Failures) (only : Bool) (ending : Ending × World)
    → is_os_error e ≡ true
    → Told k (before ++ seg) more (failures ++ (a, e) ∷ []) (only && is_timeout e) ending
    → Told k before (a ∷ more) failures only ending
unfolding Told
Told-next k before seg a e more failures only (connected sock, w) y (b, m, q) =
    (b, inr m, IsPeer-later k before seg w.trace sock b q)
Told-next k before seg a e more failures only (passed_on f, w) y h = h
Told-next k before seg a e more failures only (all_failed all_of told, w) y
      (later, same, names, os, t) =
    (
      (a, e) ∷ later,
      same ∙ append_assoc failures ((a, e) ∷ []) later,
      ap (λ l. a ∷ l) names,
      ground arith,
      ground arith,
    )

pub try_each-Told :
    (k : Kernel) (s : Settings) (addresses : List Address) (failures : Failures) (only : Bool)
    (w : World)
    → Told k w.trace addresses failures only (try_each k s addresses failures only w)
unfolding Told try_each
try_each-Told k s [] failures only w = ([], simp append-nil, refl, refl, ground arith)
try_each-Told k s (a ∷ more) failures only w = elim (Tried-cases (open_to k s a w).0) [
  | inl (sock, e) ↦
      subst (Told k w.trace (a ∷ more) failures only)
        (sym (try_each-connected k s a more failures only w e))
        (a, inl refl, open_to-IsPeer k s a w sock e)
  | inr (e, r) ↦ elim (Bool-cases (is_os_error e)) [
    | inr n ↦
        subst (Told k w.trace (a ∷ more) failures only)
          (sym (try_each-passed_on k s a more failures only w r n)) n
    | inl y ↦
        let (seg, h, _) = open_to-IsAttempt k s a w in
        let rest = failures ++ (a, e) ∷ [] in
        subst (Told k w.trace (a ∷ more) failures only)
          (sym (try_each-next k s a more failures only w r y))
          (Told-next k w.trace seg a e more failures only _ y (
            subst
              (λ t.
                Told k t more rest (only && is_timeout e)
                  (try_each k s more rest (only && is_timeout e) (open_to k s a w).1))
              h (try_each-Told k s more rest (only && is_timeout e) (open_to k s a w).1)))
  ]
]
