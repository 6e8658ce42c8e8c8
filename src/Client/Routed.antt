-- ===== src/Client/Routed.antt =====
-- Where the options of a client of src/ssrfguard/httpx.py go, and that no proxy carries its requests.
use ssrfguard.Base.{
  ◌≡◌, ◌⊎◌, Bool, true, false, not, ◌||◌, List, [], Option, none, some, codes, Text, Among, All,
}
use ssrfguard.Policy.Config.{Policy}
use ssrfguard.Client.Pools.{Transport}
use ssrfguard.Client.Options.{
  Values, is_in, transport_options, shared_options, is_known, Given, guarded, Source, built_with,
  as_given, Built, Options, has_name, find, truth_of, trusts_env,
}

-- The options that the transport of a client is built with.
abbrev pub builds_with : (V : Values) → Source V → Options V
builds_with V (built_with options) = options
builds_with V (as_given given) = []

-- Whose transport and policy a client has: it builds one for the policy it is given, or uses one of the
-- package that it is given, with the policy of that.
abbrev pub IsSourced : (V : Values) → Option Policy → Option Given → Built V → Type 0
IsSourced V policy given b =
    ((given ≡ none) × (policy ≡ some b.policy) × ((o : Options V) × (b.source ≡ built_with o)))
    ⊎ ((t : Transport) × (given ≡ some (guarded t))
        × (policy ≡ none)
        × (b.policy ≡ t.policy)
        × (b.source ≡ as_given (guarded t)))

-- A client whose options all go to what they configure, and whose requests no proxy carries unless
-- the policy lets one. The options that configure a transport only go nowhere if one is given.
pub record IsRouted (V : Values) (policy : Option Policy) (given : Option Given)
    (environment : List (Option Text)) (options : Options V) (b : Built V) : Type 0 where
  pub sourced : IsSourced V policy given b
  pub known : All (λ item. is_known item.0 ≡ true) options
  pub complete :
      All
        (λ item.
          Among item (builds_with V b.source)
          ⊎ (Among item b.for_client
              ⊎ (((t : Transport) × (b.source ≡ as_given (guarded t)))
                  × (is_in transport_options item.0 ≡ true))))
        options
  pub configures :
      All
        (λ item. (is_in transport_options item.0 || is_in shared_options item.0) ≡ true)
        (builds_with V b.source)
  pub none_silent : All (λ item. is_in transport_options item.0 ≡ false) b.for_client
  pub direct :
      (b.policy.allow_proxy ≡ true)
      ⊎ ((truth_of V (find V (codes "proxy") b.for_client) ≡ false)
          × (truth_of V (find V (codes "mounts") b.for_client) ≡ false)
          × ((trusts_env V b.for_client ≡ false) ⊎ All (λ proxy. proxy ≡ none) environment))

module _ (V : Values) where
  -- The two shares of the options.
  abbrev transport_test : Text × V.Value → Bool
  transport_test = has_name V (λ name. is_in transport_options name || is_in shared_options name)

  abbrev client_test : Text × V.Value → Bool
  client_test = has_name V (λ name. not (is_in transport_options name))
