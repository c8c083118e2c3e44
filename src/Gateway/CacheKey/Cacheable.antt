-- ===== src/Gateway/CacheKey/Cacheable.antt =====
-- Requests that the cache may answer, and what a shared key says of them (gateway/app/models.py,
-- gateway/app/cache.py).
use polygate.Prelude.{
  ℕ, ◌≡◌, refl, sym, ◌∙◌, false, not, ◌||◌, none, some, List, [], map, String, Text, codes, any,
  is_some,
}
use polygate.Prelude.Floats.{Floats}
use polygate.Gateway.Router.{Constraints}
use polygate.Gateway.Requests.{
  Role, Message, GatewayRequest, CacheControl, auto, no_store, bypass_cache, has_metadata,
  has_generation_options, uses_tools, is_plain, is_empty, is_no_store, is_filled,
}
use polygate.Gateway.CacheKey.{normalize, key_text, key_input, cache_key}
use polygate.Gateway.CacheKey.Decimals.{HasNoBar}
use polygate.Gateway.CacheKey.Sound.{codes-injective, key_text-injective}
use polygate.Gateway.CacheKey.Bare.{
  none_of, some-injective, not-false, clear, clear_options, strip_message, bare, empty_of,
  messages-AreBare,
}

module _ (fl : Floats) where
  -- A request without the spaces at the ends of its contents.
  abbrev pub strip_request : GatewayRequest fl → GatewayRequest fl
  strip_request r = record r { messages = map strip_message r.messages }

  -- The request that has nothing but what the key is made of.
  abbrev plain_request : String → List (Role × Text) → Constraints fl → GatewayRequest fl
  plain_request model ns routing = record {
    model = model;
    messages = map bare ns;
    tools = none;
    parallel_tool_calls = none;
    stream = false;
    stream_options = none;
    logprobs = none;
    top_logprobs = none;
    store = none;
    options = [];
    polygate = record { routing = routing; cache_control = auto; session_id = none };
  }

  is_auto : (c : CacheControl) → is_no_store c ≡ false → c ≡ auto
  is_auto auto h = refl
  is_auto no_store h = cc

  -- A request that does not bypass the cache has nothing that its key leaves out.
  cacheable-IsPlain :
      (r : GatewayRequest fl)
      → bypass_cache fl r ≡ false
      → (ns : List (Role × Text)) × (normalize r.messages ≡ some ns)
        × (strip_request r ≡ plain_request r.model ns r.polygate.routing)
  unfolding bypass_cache
  cacheable-IsPlain r h =
      let (no_options, messages) =
        clear (is_no_store r.polygate.cache_control) (is_some r.polygate.session_id) r.stream
          (is_filled r.tools) (has_generation_options fl r) (any has_metadata r.messages)
          (any (λ (m : Message). uses_tools m || not (is_plain m.content)) r.messages) h in
      let (a, b, c, generation) = no_options in
      let (d, e, f, g, k, l, o) =
        clear_options (is_some r.tools) (is_some r.parallel_tool_calls) (is_some r.stream_options)
          (is_some r.logprobs) (is_some r.top_logprobs) (is_some r.store) (not (is_empty r.options))
          generation in
      let (ns, x, y) = messages-AreBare r.messages messages.0 messages.1 in
      (
        ns,
        x,
        λ i. record {
          model = r.model;
          messages = y i;
          tools = none_of r.tools d i;
          parallel_tool_calls = none_of r.parallel_tool_calls e i;
          stream = c i;
          stream_options = none_of r.stream_options f i;
          logprobs = none_of r.logprobs g i;
          top_logprobs = none_of r.top_logprobs k i;
          store = none_of r.store l i;
          options = empty_of r.options (not-false (is_empty r.options) o) i;
          polygate = record {
            routing = r.polygate.routing;
            cache_control = is_auto r.polygate.cache_control a i;
            session_id = none_of r.polygate.session_id b i;
          };
        },
      )

  module _ (show_float : fl.Float → Text)
      (show_float-HasNoBar : (x : fl.Float) → HasNoBar (show_float x))
      (show_float-injective : (x y : fl.Float) → show_float x ≡ show_float y → x ≡ y) {Key : Type 0}
      (hash : Text → Key) (hash-injective : (s t : Text) → hash s ≡ hash t → s ≡ t) where
    key_of :
        (r : GatewayRequest fl) (scope : Text) (v : ℕ) (ms : List (Role × Text))
        → normalize r.messages ≡ some ms
        → cache_key fl show_float hash r scope v
          ≡ some (hash (key_text fl show_float (key_input fl ms r scope v)))
    unfolding cache_key
    key_of r scope v ms e = rw (e, cache_key) refl

    -- If two requests may be answered from the cache and have the same key, with their models as
    -- scopes, under any versions of the policy, then the versions are the same and so are the
    -- requests, in every option, but for spaces at the ends of their contents. The text of a float is
    -- assumed to tell floats apart and to hold no bar, and the hash to have no collisions.
    pub cache_key-same_request :
        (r q : GatewayRequest fl) (v w : ℕ)
        → bypass_cache fl r ≡ false
        → bypass_cache fl q ≡ false
        → cache_key fl show_float hash r (codes r.model) v
          ≡ cache_key fl show_float hash q (codes q.model) w
        → (strip_request r ≡ strip_request q) × (v ≡ w)
    unfolding cache_key
    cache_key-same_request r q v w h g e =
        let (ms, a, b) = cacheable-IsPlain r h in
        let (ns, c, d) = cacheable-IsPlain q g in
        let j = key_input fl ms r (codes r.model) v in
        let k = key_input fl ns q (codes q.model) w in
        let same_text : hash (key_text fl show_float j) ≡ hash (key_text fl show_float k) =
          some-injective
            (sym (key_of r (codes r.model) v ms a) ∙ (e ∙ key_of q (codes q.model) w ns c)) in
        let same : j ≡ k =
          key_text-injective fl show_float show_float-HasNoBar show_float-injective j k
            (hash-injective _ _ same_text) in
        let model : r.model ≡ q.model = codes-injective r.model q.model (λ i. (same i).scope) in
        (
          b
              ∙ ((λ i. plain_request (model i) (same i).messages (record {
                latency_target_ms = (same i).latency_target_ms;
                max_cost_usd = (same i).max_cost_usd;
                privacy = (same i).privacy;
                quality = (same i).quality;
              }))
                  ∙ sym d),
          λ i. (same i).policy_version,
        )
