-- ===== src/Gateway/Failover/Ends.antt =====
-- How the failover loop ends, for any invariant of the names tried and the provider at hand.
use polygate.Prelude.{
  ℕ, zero, suc, ◌+◌, ◌<◌, ◌≡◌, refl, subst, sym, ◌⊎◌, inl, inr, true, false, Option, none, some,
  List, [], ◌∷◌, ◌++◌, String, arith, length, In, Bool-cases, Option-cases,
}
use polygate.Prelude.Floats.{Floats}
use polygate.Gateway.Breaker.Registry.{Registry, health_snapshot}
use polygate.Gateway.Router.{Provider, RoutingPolicy, RoutingError, Result, ok, err}
use polygate.Gateway.Router.Select.{select_provider}
use polygate.Gateway.Router.Gates.{PassesGates}
use polygate.Gateway.Router.Optimal.{chosen_passes_gates}
use polygate.Gateway.Retry.{
  Config, Outcome, returned, raised, Run, call_provider_with_resilience, Error,
}
use polygate.Gateway.Failover.{
  Model, auto, named, reply, refuse, select, remaining, Request, Round, Ending, served, failed_with,
  out_of_fuel, untried, give_up, next_provider, failover, request_budget_exhausted,
  provider_timed_out, provider_timeout,
}
use polygate.Gateway.Failover.Untried.{untried-lt}

result_cases {ℓ} :
    {A : Type ℓ} (r : Result A) → ((a : A) × (r ≡ ok a)) ⊎ ((e : RoutingError) × (r ≡ err e))
result_cases (ok a) = inl (a, refl)
result_cases (err e) = inr (e, refl)

module _ (fl : Floats) (providers : List (Provider fl)) (req : Request fl) (cfg : Config)
    (deadline : ℕ) (policy : RoutingPolicy fl) (rounds : ℕ → Round fl providers) where
  abbrev pub next : List String → Registry → Option (Provider fl)
  next = next_provider fl providers req cfg deadline policy rounds

  abbrev pub loop : ℕ → ℕ → List String → Provider fl → ℕ → Registry → Ending fl providers
  loop = failover fl providers req cfg deadline policy rounds

  -- The branches of one round.
  module _ (fuel round : ℕ) (tried : List String) (p : Provider fl) (f : ℕ) (reg : Registry) where
    abbrev called : Run × Registry
    called = call_provider_with_resilience cfg (rounds round).env p.name (rounds round).wall reg

    abbrev tried' : List String
    tried' = tried ++ p.name ∷ []

    loop-returned :
        (n : ℕ)
        → called.0.outcome ≡ returned n
        → loop (suc fuel) round tried p f reg
          ≡ served (record { chosen = p; tried_names = tried'; retries = n + f })
    unfolding failover
    loop-returned n h = rw (h, failover)

    loop-late :
        (e : Error) (n : ℕ)
        → called.0.outcome ≡ raised e n
        → request_budget_exhausted e deadline (rounds round).clock ≡ true
        → loop (suc fuel) round tried p f reg ≡ failed_with provider_timeout tried'
    unfolding failover
    loop-late e n h k = rw (h, failover) (rw (k, failover))

    loop-last :
        (e : Error) (n : ℕ)
        → called.0.outcome ≡ raised e n
        → request_budget_exhausted e deadline (rounds round).clock ≡ false
        → next tried' called.1 ≡ none
        → loop (suc fuel) round tried p f reg ≡ give_up fl providers (provider_timed_out e) tried'
    unfolding failover
    loop-last e n h k l = rw (h, failover) (rw (k, failover) (rw (l, failover)))

    loop-next :
        (e : Error) (n : ℕ) (q : Provider fl)
        → called.0.outcome ≡ raised e n
        → request_budget_exhausted e deadline (rounds round).clock ≡ false
        → next tried' called.1 ≡ some q
        → loop (suc fuel) round tried p f reg ≡ loop fuel (round + 1) tried' q (f + n) called.1
    unfolding failover
    loop-next e n q h k l = rw (h, failover) (rw (k, failover) (rw (l, failover)))

  pub outcome_cases :
      (o : Outcome) → ((n : ℕ) × (o ≡ returned n)) ⊎ ((e : Error) × (n : ℕ) × (o ≡ raised e n))
  outcome_cases (returned n) = inl (n, refl)
  outcome_cases (raised e n) = inr (e, n, refl)

  -- The next provider was not tried, passes the gates at the health of that moment, and is looked
  -- for only if the request left the choice to the router.
  abbrev pub IsNext : List String → Registry → Provider fl → Type 0
  IsNext tried reg q =
      (req.model ≡ auto)
      × In q (untried fl providers tried)
      × PassesGates fl q req.constraints (health_snapshot reg.breakers) req.required_capabilities

  selected :
      (ps : List (Provider fl)) (reg : Registry) (q : Provider fl)
      → (elim (select fl providers ps req policy reg) [ reply s ↦ some s.chosen | refuse e ↦ none ])
        ≡ some q
      → In q ps
        × PassesGates fl q req.constraints (health_snapshot reg.breakers) req.required_capabilities
  unfolding select
  selected ps reg q h =
      elim (result_cases (
        select_provider fl ps req.messages req.constraints (health_snapshot reg.breakers)
          req.required_capabilities policy)) [
            | inl (s, e) ↦
                let (i, g) =
                  chosen_passes_gates fl ps req.messages req.constraints
                    (health_snapshot reg.breakers) req.required_capabilities policy s e in
                let k : some s.chosen ≡ some q = rw e at h in
                let same : s.chosen ≡ q = cc in
                subst
                  (λ x.
                    In x ps
                    × PassesGates fl x req.constraints (health_snapshot reg.breakers)
                        req.required_capabilities)
                  same (i, g)
            | inr (x, e) ↦ let k : none ≡ some q = rw e at h in cc
          ]

  picked_from :
      (ps : List (Provider fl)) (reg : Registry) (q : Provider fl)
      → (elim ps [
        | [] ↦ none
        | r ∷ rs ↦ elim (select fl providers (r ∷ rs) req policy reg) [
          | reply s ↦ some s.chosen
          | refuse e ↦ none
        ]
      ])
        ≡ some q
      → In q ps
        × PassesGates fl q req.constraints (health_snapshot reg.breakers) req.required_capabilities
  picked_from [] reg q h = cc
  picked_from (r ∷ rs) reg q h = selected (r ∷ rs) reg q h

  picked :
      (m : Model) (tried : List String) (reg : Registry) (q : Provider fl)
      → (elim (remaining fl providers m tried) [
        | [] ↦ none
        | p ∷ ps ↦ elim (select fl providers (p ∷ ps) req policy reg) [
          | reply s ↦ some s.chosen
          | refuse e ↦ none
        ]
      ])
        ≡ some q
      → (m ≡ auto)
        × In q (untried fl providers tried)
        × PassesGates fl q req.constraints (health_snapshot reg.breakers) req.required_capabilities
  picked (named n) tried reg q h = cc
  picked auto tried reg q h =
      let (i, g) = picked_from (untried fl providers tried) reg q h in (refl, i, g)

  pub next-IsNext :
      (tried : List String) (reg : Registry) (q : Provider fl)
      → next tried reg ≡ some q
      → IsNext tried reg q
  unfolding next_provider
  next-IsNext tried reg q h = picked req.model tried reg q h

  module _ (Inv : List String → Provider fl → Type 0)
      (step : (tried : List String) (p q : Provider fl) (reg : Registry)
        → Inv tried p
        → next (tried ++ p.name ∷ []) reg ≡ some q
        → Inv (tried ++ p.name ∷ []) q) where
    -- The invariant holds where the loop ends, and the loop does end.
    abbrev pub EndsIn : Ending fl providers → Type 0
    EndsIn (served s) =
        (t : List String) × Inv t s.chosen × (s.tried_names ≡ t ++ s.chosen.name ∷ [])
    EndsIn (failed_with e names) =
        (t : List String) × (c : Provider fl) × Inv t c × (names ≡ t ++ c.name ∷ [])
    EndsIn out_of_fuel = ⊥

    pub loop-EndsIn :
        (fuel round : ℕ) (tried : List String) (p : Provider fl) (f : ℕ) (reg : Registry)
        → length (untried fl providers (tried ++ p.name ∷ [])) < fuel
        → Inv tried p
        → EndsIn (loop fuel round tried p f reg)
    loop-EndsIn zero round tried p f reg l h = elim l [ ]
    loop-EndsIn (suc fuel) round tried p f reg l h =
        elim (outcome_cases (called fuel round tried p f reg).0.outcome) [
          | inl (n, o) ↦
              subst EndsIn (sym (loop-returned fuel round tried p f reg n o)) (tried, h, refl)
          | inr (e, n, o) ↦
              elim (Bool-cases (request_budget_exhausted e deadline (rounds round).clock)) [
                | inl late ↦
                    subst EndsIn (sym (loop-late fuel round tried p f reg e n o late))
                      (tried, p, h, refl)
                | inr ontime ↦
                    elim (Option-cases
                      (next (tried ++ p.name ∷ []) (called fuel round tried p f reg).1)) [
                        | inl nobody ↦
                            subst EndsIn
                              (sym (loop-last fuel round tried p f reg e n o ontime nobody))
                              (tried, p, h, refl)
                        | inr (q, some_q) ↦
                            let (m, i, g) = next-IsNext (tried ++ p.name ∷ []) _ q some_q in
                            subst EndsIn
                              (sym (loop-next fuel round tried p f reg e n q o ontime some_q))
                              (loop-EndsIn fuel (round + 1) (tried ++ p.name ∷ []) q (f + n) _
                                (omega (arith, untried-lt fl providers q (tried ++ p.name ∷ []) i))
                                (step tried p q _ h some_q))
                      ]
              ]
        ]
