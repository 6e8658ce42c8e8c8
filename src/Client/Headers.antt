-- ===== src/Client/Headers.antt =====
-- The stripping of sensitive headers in src/ssrfguard/requests.py and src/ssrfguard/httpx.py. The
-- headers are those of the client library: a parameter, of which the code uses two operations.
use ssrfguard.Base.{
  ◌≡◌, Bool, not, ◌||◌, List, [], ◌∷◌, true, Text, text_eq, lower, any, keep, Among, All,
  if◌then◌else◌,
}
use ssrfguard.Policy.Config.{Policy}

-- A store of headers: what it holds, the names that iterating over it gives, and `del`.
pub record Headers : Type 1 where
  pub Store : Type 0
  pub items : Store → List (Text × Text)
  pub names : Store → List Text
  pub delete : Text → Store → Store

abbrev pub same_name : Text → Text × Text → Bool
same_name name (key, value) = text_eq (lower key) (lower name)

-- What the two libraries document of their headers: names are compared without regard to case,
-- `del` removes every header of the name, and iterating names every header.
pub record IsCaseless (H : Headers) : Type 0 where
  pub deletes :
      (name : Text) (h : H.Store)
      → H.items (H.delete name h) ≡ keep (λ item. not (same_name name item)) (H.items h)
  pub named :
      (h : H.Store)
      → All
          (λ item. (name : Text) × Among name (H.names h) × (same_name name item ≡ true))
          (H.items h)

abbrev pub is_sensitive : List Text → Text → Bool
is_sensitive sensitive name = any (text_eq (lower name)) sensitive

-- The loop over the names.
unfoldable pub delete_each : (H : Headers) → List Text → List Text → H.Store → H.Store
delete_each H sensitive [] h = h
delete_each H sensitive (name ∷ more) h =
    delete_each H sensitive more (if is_sensitive sensitive name then H.delete name h else h)

unfoldable pub strip : (H : Headers) → List Text → H.Store → H.Store
strip H sensitive h = delete_each H sensitive (H.names h) h

-- `_stripped_headers` of httpx.py, and `_redirect_headers` of both its clients: `headers` is what the
-- method of httpx gives, `same_origin` and `https_redirect` what its two functions answer
unfoldable pub stripped_headers : (H : Headers) → Policy → Bool → Bool → H.Store → H.Store
stripped_headers H p same_origin https_redirect headers =
    if same_origin || https_redirect then headers else strip H p.sensitive_headers headers
