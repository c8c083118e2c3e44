-- ===== src/Gateway/Adapters/Payload.antt =====
-- What holds of every payload that is sent to a provider (gateway/app/adapters.py).
use polygate.Prelude.{
  ◌≡◌, refl, sym, ap, ◌∙◌, inl, inr, true, false, Option, none, some, List, [], String, Dict, All,
  lookup, insert, erase, lookup-insert, lookup-erase, str_eq, arith, or_else, Bool-cases,
  Option-cases,
}
use polygate.Gateway.Requests.{Raw, Message}
use polygate.Gateway.Adapters.{
  text, messages, options, Body, Target, Defaults, no_defaults, bad_defaults, defaults, accepts,
  normalize_messages, update, messages_in, is_set, options_in, base, adapt_store, adapt_stream,
  with_messages, adapt, build_provider_payload,
}
use polygate.Gateway.Adapters.Messages.{
  IsTaken, SendsAll, normalize_messages-IsTaken, normalize_messages-SendsAll,
}

-- What is sent of the defaults and the client's payload.
abbrev pub Sends : Target → Body → Body → Type 0
Sends p given b =
    (lookup "model" b ≡ some (text (or_else p.model "default")))
    × (lookup "polygate" b ≡ none)
    × ((ms : List Message) × (normalize_messages p (messages_in (lookup "messages" given))
          ≡ some ms)
        × (lookup "messages" b ≡ some (messages ms))
        × All (IsTaken p) ms
        × SendsAll p (messages_in (lookup "messages" given)) ms)
    × (accepts p "store" ≡ false → lookup "store" b ≡ none)
    × (is_set (lookup "stream" given) ≡ true
        → (o : Dict Raw) × (lookup "stream_options" b ≡ some (options o))
          × (lookup "include_usage" o ≡ some "true"))
    × ((k : String)
        → str_eq "model" k ≡ false
        → str_eq "polygate" k ≡ false
        → str_eq "messages" k ≡ false
        → str_eq "store" k ≡ false
        → str_eq "stream_options" k ≡ false
        → lookup k b ≡ lookup k given)

-- Lookups through the last two steps.
adapt_stream-lookup :
    (body : Body) (k : String)
    → str_eq "stream_options" k ≡ false
    → lookup k (adapt_stream body) ≡ lookup k body
unfolding adapt_stream
adapt_stream-lookup body k n = elim (Bool-cases (is_set (lookup "stream" body))) [
  | inl y ↦ rw y (lookup-insert "stream_options" k _ body ∙ rw n refl)
  | inr m ↦ rw m refl
]

adapt_stream-options :
    (body : Body)
    → is_set (lookup "stream" body) ≡ true
    → (o : Dict Raw) × (lookup "stream_options" (adapt_stream body) ≡ some (options o))
      × (lookup "include_usage" o ≡ some "true")
unfolding adapt_stream
adapt_stream-options body y =
    let o = insert "include_usage" "true" (options_in (lookup "stream_options" body)) in
    (
      o,
      rw y (lookup-insert "stream_options" "stream_options" (options o) body),
      lookup-insert "include_usage" "include_usage" "true"
          (options_in (lookup "stream_options" body)),
    )

adapt_store-lookup :
    (p : Target) (body b : Body) (k : String)
    → adapt_store p body ≡ some b
    → str_eq "store" k ≡ false
    → lookup k b ≡ lookup k body
unfolding adapt_store
adapt_store-lookup p body b k h n = ground (arith, lookup-erase "store" k body)

adapt_store-none :
    (p : Target) (body b : Body)
    → adapt_store p body ≡ some b
    → accepts p "store" ≡ false
    → lookup "store" b ≡ none
unfolding adapt_store
adapt_store-none p body b h n = ground (arith, lookup-erase "store" "store" body)

base-lookup :
    (p : Target) (under payload : Body) (k : String)
    → str_eq "model" k ≡ false
    → str_eq "polygate" k ≡ false
    → lookup k (base p under payload) ≡ lookup k (update under payload)
unfolding base
base-lookup p under payload k m n =
    let given = update under payload in
    let outer : lookup k
          (insert "model" (text (or_else p.model "default")) (erase "polygate" given))
        ≡ lookup k (erase "polygate" given) =
      lookup-insert "model" k (text (or_else p.model "default")) (erase "polygate" given)
      ∙ rw m refl in
    outer ∙ (lookup-erase "polygate" k given ∙ rw n refl)

-- The steps of a payload that is sent.
steps :
    (p : Target) (body b : Body) (o : Option (List Message))
    → with_messages p body o ≡ some b
    → (ms : List Message) × (b0 : Body) × (o ≡ some ms)
      × (adapt_store p (insert "messages" (messages ms) body) ≡ some b0)
      × (b ≡ adapt_stream b0)
steps p body b none h = cc
steps p body b (some ms) h =
    elim (Option-cases (adapt_store p (insert "messages" (messages ms) body))) [
      | inl n ↦ let e : none ≡ some b = rw (n, with_messages) at h in cc
      | inr (b0, e) ↦
          let f : some (adapt_stream b0) ≡ some b = rw (e, with_messages) at h in
          (ms, b0, refl, e, body-eq f)
    ]
  where
    body-eq : {x y : Body} → some x ≡ some y → y ≡ x
    body-eq f = cc

adapt-Sends :
    (p : Target) (under payload b : Body)
    → adapt p (base p under payload) ≡ some b
    → Sends p (update under payload) b
unfolding base
adapt-Sends p under payload b h =
    let body = base p under payload in
    let given = update under payload in
    let (ms, b0, a, e, f) =
      steps p body b (normalize_messages p (messages_in (lookup "messages" body))) h in
    let body' = insert "messages" (messages ms) body in
    let back : (k : String)
        → str_eq "stream_options" k ≡ false
        → str_eq "store" k ≡ false
        → lookup k b ≡ lookup k body' =
      λ k n s.
        ap (lookup k) f ∙ (adapt_stream-lookup b0 k n ∙ adapt_store-lookup p body' b0 k e s) in
    let inner : (k : String) → str_eq "messages" k ≡ false → lookup k body' ≡ lookup k body =
      λ k n. lookup-insert "messages" k (messages ms) body ∙ rw n refl in
    let given_messages : lookup "messages" body ≡ lookup "messages" given =
      base-lookup p under payload "messages" refl refl in
    let given_stream : lookup "stream" b0 ≡ lookup "stream" given =
      adapt_store-lookup p body' b0 "stream" e refl
      ∙ (inner "stream" refl ∙ base-lookup p under payload "stream" refl refl) in
    (
      back "model" refl refl ∙ (inner "model" refl ∙ lookup-insert "model" "model" _ _),
      back "polygate" refl refl
          ∙ (inner "polygate" refl
              ∙ (lookup-insert "model" "polygate" _ _ ∙ lookup-erase "polygate" "polygate" given)),
      (
        ms,
        ap (λ x. normalize_messages p (messages_in x)) (sym given_messages) ∙ a,
        back "messages" refl refl ∙ lookup-insert "messages" "messages" (messages ms) body,
        normalize_messages-IsTaken p _ ms a,
        normalize_messages-SendsAll p _ ms
            (ap (λ x. normalize_messages p (messages_in x)) (sym given_messages) ∙ a),
      ),
      λ n.
          ap (lookup "store") f
          ∙ (adapt_stream-lookup b0 "store" refl ∙ adapt_store-none p body' b0 e n),
      λ y.
          let (o, q, r) = adapt_stream-options b0 (ap is_set given_stream ∙ y) in
          (o, ap (lookup "stream_options") f ∙ q, r),
      λ k m g x s t. back k t s ∙ (inner k x ∙ base-lookup p under payload k m g),
    )

abbrev pub under_of : Defaults → Body
under_of no_defaults = []
under_of bad_defaults = []
under_of (defaults under) = under

-- A payload that is sent to a provider has the provider's model and nothing of the gateway's own
-- policy. Its messages are those given, in their order and no others, with a developer's role sent as
-- `system` to a provider without that role, the content as it is but for a list of blocks for a
-- provider that takes none, which are then all text and are sent as their texts one after the other,
-- and every other field as it is. The payload has no `store` where that is not supported; a stream asks for its usage; and every other field is as the client gave it over the
-- provider's defaults.
pub build_provider_payload-Sends :
    (p : Target) (payload b : Body)
    → build_provider_payload p payload ≡ some b
    → Sends p (update (under_of p.request_defaults) payload) b
unfolding build_provider_payload
build_provider_payload-Sends p payload b h = sends p.request_defaults refl
  where
    sends : (d : Defaults) → p.request_defaults ≡ d → Sends p (update (under_of d) payload) b
    sends no_defaults e = adapt-Sends p [] payload b (rw e at h)
    sends bad_defaults e = let f : none ≡ some b = rw e at h in cc
    sends (defaults under) e = adapt-Sends p under payload b (rw e at h)
