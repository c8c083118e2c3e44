-- ===== src/Gateway/Chat/Transparent.antt =====
-- What the cache does to the answers of the chat handler (gateway/app/main.py).
use polygate.Prelude.{
  ℕ, ◌≡◌, refl, sym, ◌∙◌, subst, inl, inr, Bool, true, false, not, ◌&&◌, Option, none, some, List,
  [], ◌∷◌, In, All, Text, codes, length, if◌then◌else◌, ◌==◌, arith, Bool-cases,
}
use polygate.Prelude.Floats.{Floats}
use polygate.Gateway.Router.{Provider}
use polygate.Gateway.Failover.{
  Reply, reply, refuse, forced_provider, Served, Ending, served, failed_with, out_of_fuel,
  call_non_stream,
}
use polygate.Gateway.Requests.{GatewayRequest, bypass_cache}
use polygate.Gateway.CacheKey.{cache_key}
use polygate.Gateway.CacheKey.Decimals.{HasNoBar}
use polygate.Gateway.CacheKey.Cacheable.{strip_request, cache_key-same_request}
use polygate.Gateway.Chat.{
  Answer, Entries, find_entry, World, ChatReply, from_cache, from_provider, scope_of, key_of,
  read_cache, write_cache, is_empty_text, after_ending, call_chosen, first_provider, after_cache,
  after_forced, chat_completions, routing_request,
}
use polygate.Gateway.Chat.Scope.{found_entry, scope_of-model}

module _ (fl : Floats) (providers : List (Provider fl)) where
  -- A request that was answered, what it met, and the reply.
  pub record Exchange : Type 0 where
    pub request : GatewayRequest fl
    pub world : World fl providers
    pub reply : ChatReply fl providers

  -- An earlier exchange in which a provider gave the answer: the first that was tried.
  abbrev pub Gave : Exchange → Answer → Type 0
  Gave x a =
      (s : Served fl providers) × (x.reply ≡ from_provider s x.world.result)
      × (length s.tried_names ≡ 1)
      × (x.world.result ≡ record { content = a.answer; tokens = a.tokens })

  -- The same request, but for spaces, was answered so before, under the same version of the policy.
  abbrev pub WasAnswered : List Exchange → GatewayRequest fl → ℕ → Answer → Type 0
  WasAnswered past r version a =
      (x : Exchange) × In x past
      × (strip_request fl x.request ≡ strip_request fl r)
      × (x.world.policy_version ≡ version)
      × Gave x a

  module _ (show_float : fl.Float → Text) (hash : Text → Text) where
    abbrev Origin : List Exchange → Text × Answer → Type 0
    Origin past (k, a) =
        (x : Exchange) × In x past
        × (bypass_cache fl x.request ≡ false)
        × (cache_key fl show_float hash x.request (codes x.request.model) x.world.policy_version
            ≡ some k)
        × Gave x a

    -- Every entry came from an exchange.
    abbrev Justified : List Exchange → Entries → Type 0
    Justified past entries = All (Origin past) entries

    further :
        (past : List Exchange) (x : Exchange) (entries : Entries)
        → Justified past entries
        → Justified (x ∷ past) entries
    further past x [] h = tt
    further past x (e ∷ entries) ((y, i, b, k, g), h) =
        ((y, inr i, b, k, g), further past x entries h)

    abbrev exchange : GatewayRequest fl → World fl providers → ChatReply fl providers → Exchange
    exchange r w rep = record { request = r; world = w; reply = rep }

    -- What the handling of a request keeps up: what comes from the cache was answered before, and
    -- every entry has its origin.
    abbrev Keeps :
        List Exchange
        → GatewayRequest fl
        → World fl providers
        → ChatReply fl providers × Entries
        → Type 0
    Keeps past r w (rep, entries) =
        ((a : Answer) → rep ≡ from_cache a → WasAnswered past r w.policy_version a)
        × Justified (exchange r w rep ∷ past) entries

    -- A key that the request may use.
    abbrev IsKey : GatewayRequest fl → World fl providers → Option Text → Type 0
    IsKey r w key =
        (k : Text)
        → key ≡ some k
        → (bypass_cache fl r ≡ false)
          × (cache_key fl show_float hash r (codes r.model) w.policy_version ≡ some k)

    refused-Keeps :
        (past : List Exchange) (r : GatewayRequest fl) (w : World fl providers)
        (rep : ChatReply fl providers) (entries : Entries)
        → ((a : Answer) → rep ≡ from_cache a → ⊥)
        → Justified past entries
        → Keeps past r w (rep, entries)
    refused-Keeps past r w rep entries n h =
        (λ a e. absurd (n a e), further past (exchange r w rep) entries h)

    written-Keeps :
        (past : List Exchange) (r : GatewayRequest fl) (w : World fl providers)
        (s : Served fl providers) (key : Option Text) (entries : Entries)
        → IsKey r w key
        → Justified past entries
        → Justified
            (exchange r w (from_provider s w.result) ∷ past)
            (write_cache fl providers w key s.tried_names entries)
    written-Keeps past r w s none entries k h =
        further past (exchange r w (from_provider s w.result)) entries h
    written-Keeps past r w s (some key) entries k h =
        elim (Bool-cases (
          w.can_write
          && (not (is_empty_text fl providers w.result.content) && length s.tried_names == 1))) [
            | inr n ↦ rw n (further past (exchange r w (from_provider s w.result)) entries h)
            | inl y ↦
                let (b, e) = k key refl in
                let x = exchange r w (from_provider s w.result) in
                let once : length s.tried_names ≡ 1 = ground arith in
                rw y ((x, inl refl, b, e, (s, refl, once, refl)), further past x entries h)
          ]

    ending-Keeps :
        (past : List Exchange) (r : GatewayRequest fl) (w : World fl providers) (key : Option Text)
        (entries : Entries) (ending : Ending fl providers)
        → IsKey r w key
        → Justified past entries
        → Keeps past r w (after_ending fl providers w key entries ending)
    ending-Keeps past r w key entries (served s) k h =
        (λ a e. cc, written-Keeps past r w s key entries k h)
    ending-Keeps past r w key entries (failed_with e tried) k h =
        refused-Keeps past r w _ entries (λ a f. cc) h
    ending-Keeps past r w key entries out_of_fuel k h =
        refused-Keeps past r w _ entries (λ a f. cc) h

    chosen-Keeps :
        (past : List Exchange) (r : GatewayRequest fl) (w : World fl providers) (key : Option Text)
        (entries : Entries) (p : Reply (Provider fl))
        → IsKey r w key
        → Justified past entries
        → Keeps past r w (call_chosen fl providers r w key entries p)
    chosen-Keeps past r w key entries (refuse e) k h =
        refused-Keeps past r w _ entries (λ a f. cc) h
    chosen-Keeps past r w key entries (reply p) k h =
        if-Keeps r.stream _ _ (refused-Keeps past r w _ entries (λ a f. cc) h) (
          ending-Keeps past r w key entries
            (call_non_stream fl providers (routing_request fl r) w.cfg w.deadline w.policy w.rounds
              p w.registry)
            k h)
      where
        if-Keeps :
            (b : Bool) (x y : ChatReply fl providers × Entries)
            → Keeps past r w x
            → Keeps past r w y
            → Keeps past r w (if b then x else y)
        if-Keeps true x y a c = a
        if-Keeps false x y a c = c

    module _ (show_float-HasNoBar : (x : fl.Float) → HasNoBar (show_float x))
        (show_float-injective : (x y : fl.Float) → show_float x ≡ show_float y → x ≡ y)
        (hash-injective : (s t : Text) → hash s ≡ hash t → s ≡ t) where
      -- What is read under the key of a request was its answer before.
      read-WasAnswered :
          (past : List Exchange) (r : GatewayRequest fl) (w : World fl providers) (key : Text)
          (entries : Entries) (a : Answer)
          → IsKey r w (some key)
          → Justified past entries
          → find_entry key entries ≡ some a
          → WasAnswered past r w.policy_version a
      read-WasAnswered past r w key entries a k h e =
          let (x, i, b, c, g) = found_entry (Origin past) key entries a h e in
          let (b', c') = k key refl in
          let (same, version) =
            cache_key-same_request fl show_float show_float-HasNoBar show_float-injective hash
              hash-injective x.request r x.world.policy_version w.policy_version b b'
              (c ∙ sym c') in
          (x, i, same, version, g)

      read_cache-WasAnswered :
          (past : List Exchange) (r : GatewayRequest fl) (w : World fl providers)
          (key : Option Text) (entries : Entries) (a : Answer)
          → IsKey r w key
          → Justified past entries
          → read_cache fl providers w key entries ≡ some a
          → WasAnswered past r w.policy_version a
      read_cache-WasAnswered past r w none entries a k h e = cc
      read_cache-WasAnswered past r w (some key) entries a k h e =
          elim (Bool-cases (w.can_read && w.is_kept key)) [
            | inl y ↦ read-WasAnswered past r w key entries a k h (rw y at e)
            | inr n ↦ let f : none ≡ some a = rw n at e in cc
          ]

      after_cache-Keeps :
          (past : List Exchange) (r : GatewayRequest fl) (w : World fl providers)
          (forced : Option (Provider fl)) (key : Option Text) (entries : Entries)
          (o : Option Answer)
          → IsKey r w key
          → Justified past entries
          → read_cache fl providers w key entries ≡ o
          → Keeps past r w (after_cache fl providers r w forced key entries o)
      after_cache-Keeps past r w forced key entries none k h e =
          chosen-Keeps past r w key entries (first_provider fl providers r w forced) k h
      after_cache-Keeps past r w forced key entries (some b) k h e = (
        λ a f.
            let same : b ≡ a = cached-eq f in
            subst (WasAnswered past r w.policy_version) same
              (read_cache-WasAnswered past r w key entries b k h e),
        further past (exchange r w (from_cache b)) entries h,
      )
        where
          cached-eq :
              {x y : Answer}
              → ◌≡◌ {A = ChatReply fl providers} (from_cache x) (from_cache y)
              → x ≡ y
          cached-eq f = cc

      key_of-IsKey :
          (r : GatewayRequest fl) (w : World fl providers) (scope : Text) (b : Bool)
          → bypass_cache fl r ≡ b
          → scope ≡ codes r.model
          → IsKey r w (key_of fl providers show_float hash b r scope w.policy_version)
      key_of-IsKey r w scope true e f k g = cc
      key_of-IsKey r w scope false e f k g =
          (e, subst (λ s. cache_key fl show_float hash r s w.policy_version ≡ some k) f g)

      handled-Keeps :
          (past : List Exchange) (r : GatewayRequest fl) (w : World fl providers)
          (entries : Entries) (f : Reply (Option (Provider fl)))
          → forced_provider fl providers (routing_request fl r) ≡ f
          → Justified past entries
          → Keeps past r w (after_forced fl providers show_float hash r w entries f)
      handled-Keeps past r w entries (refuse e) g h = refused-Keeps past r w _ entries (λ a f. cc) h
      handled-Keeps past r w entries (reply forced) g h =
          let scope = scope_of fl providers forced in
          let key =
            key_of fl providers show_float hash (bypass_cache fl r) r scope w.policy_version in
          after_cache-Keeps past r w forced key entries (read_cache fl providers w key entries)
            (key_of-IsKey r w scope (bypass_cache fl r) refl
              (scope_of-model fl providers r forced g))
            h refl

      chat-Keeps :
          (past : List Exchange) (r : GatewayRequest fl) (w : World fl providers)
          (entries : Entries)
          → Justified past entries
          → Keeps past r w (chat_completions fl providers show_float hash r w entries)
      unfolding chat_completions
      chat-Keeps past r w entries h =
          handled-Keeps past r w entries (forced_provider fl providers (routing_request fl r)) refl
            h

      -- The exchanges of requests that are handled one after the other.
      abbrev pub exchanges : List (GatewayRequest fl × World fl providers) → Entries → List Exchange
      exchanges [] entries = []
      exchanges ((r, w) ∷ rest) entries =
          exchange r w (chat_completions fl providers show_float hash r w entries).0
          ∷ exchanges rest (chat_completions fl providers show_float hash r w entries).1

      -- Of each exchange after others: a reply from the cache was given before.
      abbrev pub AreTransparent : List Exchange → List Exchange → Type 0
      AreTransparent past [] = Unit
      AreTransparent past (x ∷ xs) =
          ((a : Answer)
            → x.reply ≡ from_cache a
            → WasAnswered past x.request x.world.policy_version a)
          × AreTransparent (x ∷ past) xs

      all-AreTransparent :
          (requests : List (GatewayRequest fl × World fl providers)) (past : List Exchange)
          (entries : Entries)
          → Justified past entries
          → AreTransparent past (exchanges requests entries)
      all-AreTransparent [] past entries h = tt
      all-AreTransparent ((r, w) ∷ rest) past entries h =
          let (a, b) = chat-Keeps past r w entries h in
          (a, all-AreTransparent rest (exchange r w _ ∷ past) _ b)

      -- Whatever requests come, whatever they meet and whatever Redis keeps or loses, every answer
      -- from the cache is one that a provider, the first that was tried, gave before to the same
      -- request, in every option and under the same version of the policy, but for spaces at the ends
      -- of the contents. The text of a float is assumed to tell floats apart and to hold no bar, and the
      -- hash to have no collisions.
      pub cache-AreTransparent :
          (requests : List (GatewayRequest fl × World fl providers))
          → AreTransparent [] (exchanges requests [])
      cache-AreTransparent requests = all-AreTransparent requests [] [] tt
